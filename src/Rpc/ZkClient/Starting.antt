-- ===== src/Rpc/ZkClient/Starting.antt =====
-- When Start returns, and when an event of the session breaks the program.
use gd_rpc.Base.{
  ℕ, suc, ◌≡◌, ◌≤◌, ◌-◌, refl, Bool, true, false, Option, none, some, arith, if◌then◌else◌,
}
use gd_rpc.Rpc.ZkClient.Session.{
  CallerAt, waiting, returned, closed, session_event, other_event, connected_state, other_state,
  Fault, posted_null, posted_dead, Session, new_client, is_watched, global_watcher, Step, init,
  init_fails, init_returns, sem_init, set_context, sem_wait, watch, close, Reach, here, next,
}

-- The context is set.
abbrev pub has_context : CallerAt → Bool
has_context waiting = true
has_context returned = true
has_context closed = true
has_context _ = false

-- Start has returned.
abbrev pub has_started : CallerAt → Bool
has_started returned = true
has_started closed = true
has_started _ = false

abbrev pub is_running : Option Fault → Bool
is_running none = true
is_running _ = false

-- What the semaphore has, and the one that Start has taken.
abbrev pub posts : Session → ℕ
posts s = if has_started s.caller then suc s.sem else s.sem

pub record IsSound (s : Session) : Type 0 where
  pub context : s.context_set ≡ has_context s.caller
  -- While there is no fault every such event has posted.
  pub posted : is_running s.fault ≡ true → posts s ≡ s.connects
  pub unset : has_context s.caller ≡ false → s.sem ≡ 0
  pub null : s.fault ≡ some posted_null → has_context s.caller ≡ false
  pub dead : s.fault ≡ some posted_dead → s.caller ≡ returned

new_client-IsSound : IsSound new_client
new_client-IsSound = record {
  context = refl;
  posted = λ e. refl;
  unset = λ e. refl;
  null = λ e. refl;
  dead = λ e. cc;
}

sem_post-IsSound :
    (s : Session)
    → s.fault ≡ none
    → is_watched s.caller ≡ true
    → IsSound s
    → IsSound (global_watcher session_event connected_state s)
unfolding global_watcher
sem_post-IsSound s e w i = ground (arith, i.context, i.posted, i.unset, i.null, i.dead)

Step-IsSound : {s t : Session} → Step s t → IsSound s → IsSound t
unfolding global_watcher
Step-IsSound (init s e f) i = ground arith
Step-IsSound (init_fails s e f) i = ground arith
Step-IsSound (init_returns s e f) i = ground arith
Step-IsSound (sem_init s e f) i = ground arith
Step-IsSound (set_context s e f) i = ground arith
Step-IsSound (sem_wait s e f h) i = ground arith
Step-IsSound (watch s session_event connected_state e w) i = sem_post-IsSound s e w i
Step-IsSound (watch s session_event other_state e w) i = i
Step-IsSound (watch s other_event connected_state e w) i = i
Step-IsSound (watch s other_event other_state e w) i = i
Step-IsSound (close s e f) i = ground arith

pub Reach-IsSound : {s : Session} → Reach new_client s → IsSound s
Reach-IsSound here = new_client-IsSound
Reach-IsSound (next r st) = Step-IsSound st (Reach-IsSound r)

-- In a state that can be reached, without a fault: while Start waits and the session has been
-- connected, however often and whenever the events came, Start can return; its semaphore counts them
-- all, so that none was lost.
pub waiting-returns :
    {s : Session}
    → Reach new_client s
    → s.fault ≡ none
    → s.caller ≡ waiting
    → 1 ≤ s.connects
    → (s.sem ≡ s.connects) × Step s (record s { caller = returned; sem = s.sem - 1 })
waiting-returns {s} r e f h =
    let i = Reach-IsSound r in
    let k : s.sem ≡ s.connects = ground (arith, i.posted, e, f) in
    (k, sem_wait s e f (omega (arith, k, h)))

-- Start has returned only after the session was connected.
pub started-connects :
    {s : Session}
    → Reach new_client s
    → s.fault ≡ none
    → has_started s.caller ≡ true
    → 1 ≤ s.connects
started-connects {s} r e h = let i = Reach-IsSound r in ground (arith, i.posted, e, h)

-- What an event of being connected does to the program.
abbrev pub fault_at : CallerAt → Option Fault
fault_at waiting = none
fault_at returned = some posted_dead
fault_at _ = some posted_null

-- In a state that can be reached, without a fault, while the library's threads run: an event of being
-- connected does no harm while Start waits; before that it posts to a null pointer, and after Start
-- has returned to a semaphore that is gone.
pub connected-faults :
    {s : Session}
    → Reach new_client s
    → s.fault ≡ none
    → is_watched s.caller ≡ true
    → (global_watcher session_event connected_state s).fault ≡ fault_at s.caller
unfolding global_watcher
connected-faults {s} r e w = let i = Reach-IsSound r in ground (arith, i.context, e, w)
