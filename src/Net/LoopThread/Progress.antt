-- ===== src/Net/LoopThread/Progress.antt =====
-- The two threads never wait for each other, but for a request to quit that the loop forgets.
use gd_rpc.Base.{◌≡◌, ◌⊎◌, refl, Bool, true, false, not, arith, inl, inr, Bool-cases}
use gd_rpc.Net.LoopThread.{
  CallerAt, spawning, locking, checking, waiting, relocking, returned, joining, joined, terminated,
  ThreadAt, idle, constructing, wants, publishing, notifying, releasing, entering, looping,
  wants_again, clearing, ended, Shared, start, Step, spawn, lock, relock, wait, take_loop, init,
  lock_thread, publish, notify, release, enter_loop, end_loop, lock_again, clear, ask, destroy,
  join, abandon, Reach,
}
use gd_rpc.Net.LoopThread.Safety.{IsSafe, Reach-IsSafe, caller_holds, has_returned, is_over}

-- The caller is in neither `startLoop` nor the destructor's `join`.
abbrev pub is_settled : CallerAt → Bool
is_settled returned = true
is_settled joined = true
is_settled terminated = true
is_settled _ = false

-- The destructor asked the loop to quit before the loop set `quit_` to false.
abbrev pub is_forgotten : CallerAt → ThreadAt → Bool → Bool
is_forgotten joining looping false = true
is_forgotten _ _ _ = false

abbrev pub has_forgotten : Shared → Bool
has_forgotten s = is_forgotten s.caller s.thread s.quit

abbrev Next : Shared → Type 0
Next s = (t : Shared) × Step s t

abbrev Goes : Shared → Type 0
Goes s = ((t : Shared) × Step s t) ⊎ (has_forgotten s ≡ true)

-- A caller that has the mutex can go on.
check_Next : (s : Shared) → s.caller ≡ checking → Next s
check_Next s e = elim (Bool-cases s.loop_set) [
  | inl l ↦ (_, take_loop s e l)
  | inr l ↦ (_, wait s e l)
]

-- A thread that wants the mutex gets it, or the caller has it and can go on.
free_Next :
    (s : Shared) (c : CallerAt)
    → s.caller ≡ c
    → s.locked ≡ caller_holds c
    → (s.locked ≡ false → Next s)
    → Next s
free_Next s checking e l k = check_Next s e
free_Next s spawning e l k = k l
free_Next s locking e l k = k l
free_Next s waiting e l k = k l
free_Next s relocking e l k = k l
free_Next s returned e l k = k l
free_Next s joining e l k = k l
free_Next s joined e l k = k l
free_Next s terminated e l k = k l

-- While the loop runs, only a caller that nobody will notify could be stuck.
looping_Next :
    (s : Shared) (c : CallerAt)
    → IsSafe s
    → s.caller ≡ c
    → s.thread ≡ looping
    → is_settled c ≡ false
    → Goes s
looping_Next s spawning i e f n = absurd (ground (arith, i.spawned, e, f))
looping_Next s locking i e f n = inl (_, lock s e (ground (arith, i.held, e, f)))
looping_Next s checking i e f n = inl (check_Next s e)
looping_Next s waiting i e f n = absurd (ground (arith, i.will_notify, i.published, e, f))
looping_Next s relocking i e f n = inl (_, relock s e (ground (arith, i.held, e, f)))
looping_Next s returned i e f n = cc
looping_Next s joining i e f n = elim (Bool-cases s.quit) [
  | inl q ↦ inl (_, end_loop s f q)
  | inr q ↦ inr (rw (e, f, q) refl)
]
looping_Next s joined i e f n = cc
looping_Next s terminated i e f n = cc

joining_only :
    (s : Shared)
    → IsSafe s
    → is_over s.thread ≡ true
    → is_settled s.caller ≡ false
    → s.caller ≡ joining
joining_only s i o n = go s.caller refl
  where
    go : (c : CallerAt) → s.caller ≡ c → s.caller ≡ joining
    go spawning e = absurd (ground (arith, i.not_early))
    go locking e = absurd (ground (arith, i.not_early))
    go checking e = absurd (ground (arith, i.not_early))
    go waiting e = absurd (ground (arith, i.not_early))
    go relocking e = absurd (ground (arith, i.not_early))
    go returned e = absurd (ground (arith, n, e))
    go joining e = e
    go joined e = absurd (ground (arith, n, e))
    go terminated e = absurd (ground (arith, n, e))

spawning_only : (s : Shared) → IsSafe s → s.thread ≡ idle → s.caller ≡ spawning
spawning_only s i f = go s.caller refl
  where
    go : (c : CallerAt) → s.caller ≡ c → s.caller ≡ spawning
    go spawning e = e
    go locking e = absurd (ground (arith, i.spawned))
    go checking e = absurd (ground (arith, i.spawned))
    go waiting e = absurd (ground (arith, i.spawned))
    go relocking e = absurd (ground (arith, i.spawned))
    go returned e = absurd (ground (arith, i.spawned))
    go joining e = absurd (ground (arith, i.spawned))
    go joined e = absurd (ground (arith, i.spawned))
    go terminated e = absurd (ground (arith, i.spawned))

safe_Next :
    (s : Shared) (t : ThreadAt) → IsSafe s → s.thread ≡ t → is_settled s.caller ≡ false → Goes s
safe_Next s idle i f n = inl (_, spawn s (spawning_only s i f))
safe_Next s constructing i f n = inl (_, init s f)
safe_Next s wants i f n =
    inl (free_Next s s.caller refl (ground (arith, i.held, f)) (λ l. (_, lock_thread s f l)))
safe_Next s publishing i f n = inl (_, publish s f)
safe_Next s notifying i f n = inl (_, notify s f)
safe_Next s releasing i f n = inl (_, release s f)
safe_Next s entering i f n = inl (_, enter_loop s f)
safe_Next s looping i f n = looping_Next s s.caller i refl f n
safe_Next s wants_again i f n =
    inl (free_Next s s.caller refl (ground (arith, i.held, f)) (λ l. (_, lock_again s f l)))
safe_Next s clearing i f n = inl (_, clear s f)
safe_Next s ended i f n = inl (_, join s (joining_only s i (ground (arith, f)) n) f)

-- In a state that the two threads can reach, in which the caller is still in `startLoop` or waits in
-- the destructor for the thread, some thread can take a step, without a spurious wakeup; or the
-- destructor waits for a loop whose `quit_` is false again.
pub no_deadlock :
    {s : Shared}
    → Reach start s
    → is_settled s.caller ≡ false
    → ((t : Shared) × Step s t) ⊎ (has_forgotten s ≡ true)
no_deadlock {s} r n = safe_Next s s.thread (Reach-IsSafe r) refl n

-- No step leaves such a state: the destructor waits for ever.
pub Step-forgotten : {s t : Shared} → Step s t → has_forgotten s ≡ false
Step-forgotten (spawn s e) = ground arith
Step-forgotten (lock s e f) = ground arith
Step-forgotten (relock s e f) = ground arith
Step-forgotten (wait s e f) = ground arith
Step-forgotten (take_loop s e f) = ground arith
Step-forgotten (init s e) = ground arith
Step-forgotten (lock_thread s e f) = ground arith
Step-forgotten (publish s e) = ground arith
Step-forgotten (notify s e) = ground arith
Step-forgotten (release s e) = ground arith
Step-forgotten (enter_loop s e) = ground arith
Step-forgotten (end_loop s e f) = ground arith
Step-forgotten (lock_again s e f) = ground arith
Step-forgotten (clear s e) = ground arith
Step-forgotten (ask s e f) = ground arith
Step-forgotten (destroy s e f) = ground arith
Step-forgotten (join s e f) = ground arith
Step-forgotten (abandon s e f) = ground arith

abbrev pub is_ended : ThreadAt → Bool
is_ended ended = true
is_ended _ = false

safe_returned :
    (s : Shared) (t : ThreadAt)
    → IsSafe s
    → s.thread ≡ t
    → has_returned s.caller ≡ true
    → (s.callback_ran ≡ true) × (s.loop_set ≡ not (is_ended s.thread))
safe_returned s idle i e h = ground (arith, i.has_loop, i.ran, i.published)
safe_returned s constructing i e h = ground (arith, i.has_loop, i.ran, i.published)
safe_returned s wants i e h = ground (arith, i.has_loop, i.ran, i.published)
safe_returned s publishing i e h = ground (arith, i.has_loop, i.ran, i.published)
safe_returned s notifying i e h = ground (arith, i.ran, i.published)
safe_returned s releasing i e h = ground (arith, i.ran, i.published)
safe_returned s entering i e h = ground (arith, i.ran, i.published)
safe_returned s looping i e h = ground (arith, i.ran, i.published)
safe_returned s wants_again i e h = ground (arith, i.ran, i.published)
safe_returned s clearing i e h = ground (arith, i.ran, i.published)
safe_returned s ended i e h = ground (arith, i.ran, i.published)

-- When `startLoop` has returned, the loop was made and the callback has run on it, and `loop_` points
-- to it until the thread ends.
pub returned-ran :
    {s : Shared}
    → Reach start s
    → has_returned s.caller ≡ true
    → (s.callback_ran ≡ true) × (s.loop_set ≡ not (is_ended s.thread))
returned-ran {s} r h = safe_returned s s.thread (Reach-IsSafe r) refl h
