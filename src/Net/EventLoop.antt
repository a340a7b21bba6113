-- ===== src/Net/EventLoop.antt =====
-- EventLoop of gdrpc/net/eventLoop.hpp and eventLoop.cpp: the functors that other threads and the
-- loop's own callbacks queue. A functor is a number; what it does to the loop when it runs is the list
-- of the functors that it queues, which `body` gives. `wakeups` counts the writes to `wakeupFd_` that
-- are not read yet.
pub mod Functors
mod Tests
use gd_rpc.Base.{
  ℕ, zero, suc, ◌+◌, List, [], ◌∷◌, ◌++◌, Bool, true, false, ◌||◌, not, if◌then◌else◌,
}

pub record EventLoop : Type 0 where
  pub looping : Bool
  pub quit : Bool
  pub pending_functors : List ℕ
  pub calling_pending_functors : Bool
  pub wakeups : ℕ

unfoldable pub new_loop : EventLoop
new_loop = record {
  looping = false;
  quit = false;
  pending_functors = [];
  calling_pending_functors = false;
  wakeups = 0;
}

unfoldable pub wakeup : EventLoop → EventLoop
wakeup l = record l { wakeups = suc l.wakeups }

-- What `loop` does before its first turn; a request to quit is forgotten.
unfoldable pub start_loop : EventLoop → EventLoop
start_loop l = record l { looping = true; quit = false }

-- `in_loop` is `isInLoopThread()`.
unfoldable pub quit_loop : Bool → EventLoop → EventLoop
quit_loop in_loop l = let l' = record l { quit = true } in if in_loop then l' else wakeup l'

unfoldable pub queue_in_loop : Bool → ℕ → EventLoop → EventLoop
queue_in_loop in_loop cb l =
    let l' = record l { pending_functors = l.pending_functors ++ (cb ∷ []) } in
    if not in_loop || l.calling_pending_functors then wakeup l' else l'

-- What a functor queues while it runs, all in the loop's thread.
abbrev pub queue_all : List ℕ → EventLoop → EventLoop
queue_all [] l = l
queue_all (f ∷ fs) l = queue_all fs (queue_in_loop true f l)

-- The functors that run, in order, and the loop.
unfoldable pub run_in_loop : (ℕ → List ℕ) → Bool → ℕ → EventLoop → List ℕ × EventLoop
run_in_loop body in_loop cb l =
    if in_loop then (cb ∷ [], queue_all (body cb) l) else ([], queue_in_loop in_loop cb l)

-- `read` of an eventfd takes the whole count.
unfoldable pub handle_read : EventLoop → EventLoop
handle_read l = record l { wakeups = 0 }

abbrev pub call_all : (ℕ → List ℕ) → List ℕ → EventLoop → EventLoop
call_all body [] l = l
call_all body (f ∷ fs) l = call_all body fs (queue_all (body f) l)

unfoldable pub do_pending_functors : (ℕ → List ℕ) → EventLoop → List ℕ × EventLoop
do_pending_functors body l =
    let swapped = record l { pending_functors = []; calling_pending_functors = true } in
    (
      l.pending_functors,
      record (call_all body l.pending_functors swapped) { calling_pending_functors = false },
    )

-- What happens to a loop, one after the other: another thread queues a functor or asks it to quit, or
-- the loop's thread calls `loop` and makes its turns, in each of which `wakeupChannel_` is read if it
-- was ready, the scheduled functors and the other channels' callbacks queue `queued`, and the pending
-- functors run. The test of `quit_` before a turn is part of the turn.
pub data Event : Type 0 where
  queues : ℕ → Event
  quits loops : Event
  turns : List ℕ → Event

abbrev pub turn : (ℕ → List ℕ) → List ℕ → EventLoop → List ℕ × EventLoop
turn body queued l = do_pending_functors body (queue_all queued (handle_read l))

-- `while (!quit_)`, in a loop that is looping.
abbrev pub turn_while : Bool → Bool → (ℕ → List ℕ) → List ℕ → EventLoop → List ℕ × EventLoop
turn_while false quit body queued l = ([], l)
turn_while true true body queued l = ([], record l { looping = false })
turn_while true false body queued l = turn body queued l

unfoldable pub step : (ℕ → List ℕ) → Event → EventLoop → List ℕ × EventLoop
step body (queues f) l = ([], queue_in_loop false f l)
step body quits l = ([], quit_loop false l)
step body loops l = ([], start_loop l)
step body (turns queued) l = turn_while l.looping l.quit body queued l

unfoldable pub run : (ℕ → List ℕ) → List Event → EventLoop → List ℕ × EventLoop
run body [] l = ([], l)
run body (e ∷ es) l =
    let (xs, l') = step body e l in let (ys, l'') = run body es l' in (xs ++ ys, l'')
