-- ===== src/Net/LoopThread/Safety.antt =====
-- What holds in every state that the two threads can reach.
use gd_rpc.Base.{◌≡◌, refl, Bool, true, false, ◌&&◌, ◌||◌, not, arith}
use gd_rpc.Net.LoopThread.{
  CallerAt, spawning, checking, waiting, returned, joining, joined, terminated, ThreadAt, idle,
  constructing, publishing, notifying, releasing, entering, looping, wants_again, clearing, ended,
  Shared, start, Step, spawn, lock, relock, wait, take_loop, init, lock_thread, publish, notify,
  release, enter_loop, end_loop, lock_again, clear, ask, destroy, join, abandon, Spurious, wake,
  Reach, here, next, woke,
}

abbrev pub caller_holds : CallerAt → Bool
caller_holds checking = true
caller_holds _ = false

abbrev pub thread_holds : ThreadAt → Bool
thread_holds publishing = true
thread_holds notifying = true
thread_holds releasing = true
thread_holds clearing = true
thread_holds _ = false

abbrev pub publishes : ThreadAt → Bool
publishes notifying = true
publishes releasing = true
publishes entering = true
publishes looping = true
publishes wants_again = true
publishes clearing = true
publishes _ = false

abbrev pub is_waiting : CallerAt → Bool
is_waiting waiting = true
is_waiting _ = false

abbrev pub is_notifying : ThreadAt → Bool
is_notifying notifying = true
is_notifying _ = false

abbrev pub is_spawning : CallerAt → Bool
is_spawning spawning = true
is_spawning _ = false

abbrev pub is_idle : ThreadAt → Bool
is_idle idle = true
is_idle _ = false

-- `startLoop` has returned; `loop` has ended; `loop_` was set at some time.
abbrev pub has_returned : CallerAt → Bool
has_returned returned = true
has_returned joining = true
has_returned joined = true
has_returned terminated = true
has_returned _ = false

abbrev pub is_over : ThreadAt → Bool
is_over wants_again = true
is_over clearing = true
is_over ended = true
is_over _ = false

abbrev pub is_past_init : ThreadAt → Bool
is_past_init idle = false
is_past_init constructing = false
is_past_init _ = true

pub record IsSafe (s : Shared) : Type 0 where
  -- One of the two has the mutex, if it is locked, and not both.
  pub one_holder : caller_holds s.caller && thread_holds s.thread ≡ false
  pub held : s.locked ≡ (caller_holds s.caller || thread_holds s.thread)
  pub published : s.loop_set ≡ publishes s.thread
  -- A caller that waits was not passed over.
  pub will_notify : is_waiting s.caller && (s.loop_set && not (is_notifying s.thread)) ≡ false
  pub spawned : is_spawning s.caller ≡ is_idle s.thread
  pub late : s.quit && not (has_returned s.caller) ≡ false
  pub not_early : is_over s.thread && not (has_returned s.caller) ≡ false
  pub has_loop : has_returned s.caller && not (publishes s.thread || is_over s.thread) ≡ false
  pub ran : s.callback_ran ≡ is_past_init s.thread

start-IsSafe : IsSafe start
start-IsSafe = record {
  one_holder = refl;
  held = refl;
  published = refl;
  will_notify = refl;
  spawned = refl;
  late = refl;
  not_early = refl;
  has_loop = refl;
  ran = refl;
}

Step-IsSafe : {s t : Shared} → Step s t → IsSafe s → IsSafe t
Step-IsSafe (spawn s e) i = ground arith
Step-IsSafe (lock s e f) i = ground arith
Step-IsSafe (relock s e f) i = ground arith
Step-IsSafe (wait s e f) i = ground arith
Step-IsSafe (take_loop s e f) i = ground arith
Step-IsSafe (init s e) i = ground arith
Step-IsSafe (lock_thread s e f) i = ground arith
Step-IsSafe (publish s e) i = ground arith
Step-IsSafe (notify s e) i = ground arith
Step-IsSafe (release s e) i = ground arith
Step-IsSafe (end_loop s e f) i = ground arith
Step-IsSafe (lock_again s e f) i = ground arith
Step-IsSafe (clear s e) i = ground arith
Step-IsSafe (ask s e f) i = ground arith
Step-IsSafe (destroy s e f) i = ground arith
Step-IsSafe (enter_loop s e) i = ground arith
Step-IsSafe (join s e f) i = ground arith
Step-IsSafe (abandon s e f) i = ground arith

Spurious-IsSafe : {s t : Shared} → Spurious s t → IsSafe s → IsSafe t
Spurious-IsSafe (wake s e) i = ground arith

pub Reach-IsSafe : {s : Shared} → Reach start s → IsSafe s
Reach-IsSafe here = start-IsSafe
Reach-IsSafe (next r st) = Step-IsSafe st (Reach-IsSafe r)
Reach-IsSafe (woke r st) = Spurious-IsSafe st (Reach-IsSafe r)
