-- ===== src/Util/AsyncLog/Ending.antt =====
-- The destructor ends, and what the files lack then.
use gd_rpc.Base.{
  ℕ, ◌≡◌, ◌≤◌, ◌<◌, ◌⊎◌, inl, inr, refl, Bool, true, false, ◌&&◌, not, arith, if◌then◌else◌,
}
use gd_rpc.Util.AsyncLog.Stopping.{
  OwnerAt, logging, joining, joined, terminated, WriterAt, latched, testing, locking, waiting,
  swapping, writing, ended, Lifetime, constructed, Step, start, enter, leave, wait, skip_wait, wake,
  swap, write, append, destroy, abandon, clear, join, Reach, here, next,
}

abbrev pub is_latched : WriterAt → Bool
is_latched latched = true
is_latched _ = false

abbrev pub is_ended : WriterAt → Bool
is_ended ended = true
is_ended _ = false

-- `running_` was cleared.
abbrev pub is_cleared : OwnerAt → Bool
is_cleared joining = true
is_cleared joined = true
is_cleared _ = false

-- The owner can still log.
abbrev pub is_logging : OwnerAt → Bool
is_logging logging = true
is_logging _ = false

-- The writer swaps the buffers before it tests `running_` again.
abbrev pub will_swap : WriterAt → Bool
will_swap locking = true
will_swap waiting = true
will_swap swapping = true
will_swap _ = false

-- What the writer has at its end, if `running_` was cleared then.
abbrev pub taken_at_end : Lifetime → ℕ
taken_at_end s = if will_swap s.cleared_at then s.logged else s.taken_then

-- It has that, or will swap.
abbrev pub is_done : WriterAt → Bool
is_done writing = true
is_done testing = true
is_done ended = true
is_done _ = false

pub record IsSound (s : Lifetime) : Type 0 where
  pub set : s.running ≡ not (is_latched s.writer) && not (is_cleared s.owner)
  pub started : is_latched s.writer ≡ true → (s.owner ≡ logging) ⊎ (s.owner ≡ terminated)
  pub not_ended : is_ended s.writer ≡ true → is_cleared s.owner ≡ true
  pub done : is_cleared s.owner ≡ true → is_done s.writer ≡ true → s.taken ≡ taken_at_end s
  pub swaps : is_cleared s.owner ≡ true → will_swap s.writer ≡ true → will_swap s.cleared_at ≡ true
  pub has_joined : s.owner ≡ joined → is_ended s.writer ≡ true

constructed-IsSound : IsSound constructed
constructed-IsSound = record {
  set = refl;
  started = λ e. inl refl;
  not_ended = λ e. cc;
  done = λ e f. cc;
  swaps = λ e f. cc;
  has_joined = λ e. cc;
}

Step-IsSound : {s t : Lifetime} → Step s t → IsSound s → IsSound t
Step-IsSound (start s e) i = ground arith
Step-IsSound (enter s e f) i = ground arith
Step-IsSound (leave s e f) i = ground arith
Step-IsSound (wait s e) i = ground arith
Step-IsSound (skip_wait s e) i = ground arith
Step-IsSound (wake s e) i = ground arith
Step-IsSound (swap s e) i = ground arith
Step-IsSound (write s e) i = ground arith
Step-IsSound (append s e) i = ground arith
Step-IsSound (destroy s e f) i = ground arith
Step-IsSound (abandon s e f) i = ground arith
Step-IsSound (clear s e) i = ground arith
Step-IsSound (join s e f) i = ground arith

pub Reach-IsSound : {s : Lifetime} → Reach constructed s → IsSound s
Reach-IsSound here = constructed-IsSound
Reach-IsSound (next r st) = Step-IsSound st (Reach-IsSound r)

-- When the destructor has joined the thread, the lines that the writer has taken are all, if
-- `running_` was cleared after the writer's test of it and before the swap; otherwise they are those
-- that it had taken then, and what was logged since its last swap is in no file.
pub joined-taken :
    {s : Lifetime}
    → Reach constructed s
    → s.owner ≡ joined
    → s.taken ≡ (if will_swap s.cleared_at then s.logged else s.taken_then)
joined-taken {s} r e = let i = Reach-IsSound r in ground (arith, i.done, i.has_joined, e)

-- How many steps the writer has left at most, once `running_` is cleared.
abbrev pub left : WriterAt → ℕ
left latched = 6
left locking = 5
left waiting = 4
left swapping = 3
left writing = 2
left testing = 1
left ended = 0

abbrev Nearer : Lifetime → Lifetime → Type 0
Nearer s t = (t.owner ≡ joined) ⊎ ((t.owner ≡ joining) × (left t.writer < left s.writer))

Step-Nearer : {s t : Lifetime} → Step s t → IsSound s → s.owner ≡ joining → Nearer s t
Step-Nearer (start s e) i o = absurd (ground (arith, i.started, e, o))
Step-Nearer (enter s e f) i o = absurd (ground (arith, i.set, f, o))
Step-Nearer (leave s e f) i o = inr (o, ground (arith, e))
Step-Nearer (wait s e) i o = inr (o, ground (arith, e))
Step-Nearer (skip_wait s e) i o = inr (o, ground (arith, e))
Step-Nearer (wake s e) i o = inr (o, ground (arith, e))
Step-Nearer (swap s e) i o = inr (o, ground (arith, e))
Step-Nearer (write s e) i o = inr (o, ground (arith, e))
Step-Nearer (append s e) i o = absurd (ground (arith, e, o))
Step-Nearer (destroy s e f) i o = absurd (ground (arith, e, o))
Step-Nearer (abandon s e f) i o = absurd (ground (arith, e, o))
Step-Nearer (clear s e) i o = absurd (ground (arith, e, o))
Step-Nearer (join s e f) i o = inl refl

some_Step :
    (s : Lifetime) (w : WriterAt)
    → s.writer ≡ w
    → IsSound s
    → s.owner ≡ joining
    → (t : Lifetime) × Step s t
some_Step s latched e i o = (_, start s e)
some_Step s testing e i o = (_, leave s e (ground (arith, i.set, o)))
some_Step s locking e i o = (_, wait s e)
some_Step s waiting e i o = (_, wake s e)
some_Step s swapping e i o = (_, swap s e)
some_Step s writing e i o = (_, write s e)
some_Step s ended e i o = (_, join s o e)

-- In a state that can be reached, while the destructor waits for the thread: there is a step, and
-- each step is either the end of the wait or one that leaves the writer fewer steps, of which it has
-- five at most. So the destructor ends.
pub joining-ends :
    {s : Lifetime}
    → Reach constructed s
    → s.owner ≡ joining
    → ((t : Lifetime) × Step s t)
      × (left s.writer ≤ 5)
      × ((t : Lifetime)
          → Step s t
          → (t.owner ≡ joined) ⊎ ((t.owner ≡ joining) × (left t.writer < left s.writer)))
joining-ends {s} r o =
    let i = Reach-IsSound r in
    (some_Step s s.writer refl i o, ground (arith, i.started, o), λ t st. Step-Nearer st i o)
