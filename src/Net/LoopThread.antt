-- ===== src/Net/LoopThread.antt =====
-- EventLoopThread of gdrpc/net/eventLoop_thread.hpp and eventLoop_thread.cpp: the thread that starts a
-- loop and the one that runs it, by interleaved steps. A step is an access to what they share: the
-- mutex, `loop_`, the loop's `quit_` and the condition variable, whose `wait` gives the mutex back as
-- it blocks. `EventLoop::loop` of eventLoop.cpp sets `quit_` to false before its first turn, and ends
-- when it is true after a turn. Whoever has the pointer of `startLoop` may ask the loop to quit.
pub mod Safety
pub mod Progress
mod Tests
use gd_rpc.Base.{◌≡◌, Bool, true, false, ◌⊎◌}

-- Where the caller is: in `startLoop`, after it, and in the destructor.
pub data CallerAt : Type 0 where
  spawning locking checking waiting relocking returned joining joined terminated : CallerAt

-- Where `threadFunc` is. It has the mutex from `publishing` to `releasing` and in `clearing`.
pub data ThreadAt : Type 0 where
  idle constructing wants publishing notifying releasing entering looping wants_again clearing
        ended :
      ThreadAt

-- `loop_set`: whether `loop_` is not null.
pub record Shared : Type 0 where
  pub caller : CallerAt
  pub thread : ThreadAt
  pub locked : Bool
  pub loop_set : Bool
  pub quit : Bool
  pub callback_ran : Bool

abbrev pub start : Shared
start = record {
  caller = spawning;
  thread = idle;
  locked = false;
  loop_set = false;
  quit = false;
  callback_ran = false;
}

-- `notify_one` wakes the caller if it waits.
abbrev pub woken : CallerAt → CallerAt
woken waiting = relocking
woken c = c

pub data Step : Shared → Shared → Type 0 where
  -- `startLoop`
  spawn :
      (s : Shared)
      → s.caller ≡ spawning
      → Step s (record s { caller = locking; thread = constructing })
  lock :
      (s : Shared)
      → s.caller ≡ locking
      → s.locked ≡ false
      → Step s (record s { caller = checking; locked = true })
  relock :
      (s : Shared)
      → s.caller ≡ relocking
      → s.locked ≡ false
      → Step s (record s { caller = checking; locked = true })
  wait :
      (s : Shared)
      → s.caller ≡ checking
      → s.loop_set ≡ false
      → Step s (record s { caller = waiting; locked = false })
  take_loop :
      (s : Shared)
      → s.caller ≡ checking
      → s.loop_set ≡ true
      → Step s (record s { caller = returned; locked = false })
  -- `threadFunc`
  init :
      (s : Shared)
      → s.thread ≡ constructing
      → Step s (record s { thread = wants; callback_ran = true })
  lock_thread :
      (s : Shared)
      → s.thread ≡ wants
      → s.locked ≡ false
      → Step s (record s { thread = publishing; locked = true })
  publish :
      (s : Shared)
      → s.thread ≡ publishing
      → Step s (record s { thread = notifying; loop_set = true })
  notify :
      (s : Shared)
      → s.thread ≡ notifying
      → Step s (record s { thread = releasing; caller = woken s.caller })
  release :
      (s : Shared) → s.thread ≡ releasing → Step s (record s { thread = entering; locked = false })
  enter_loop :
      (s : Shared) → s.thread ≡ entering → Step s (record s { thread = looping; quit = false })
  end_loop :
      (s : Shared) → s.thread ≡ looping → s.quit ≡ true → Step s (record s { thread = wants_again })
  lock_again :
      (s : Shared)
      → s.thread ≡ wants_again
      → s.locked ≡ false
      → Step s (record s { thread = clearing; locked = true })
  clear :
      (s : Shared)
      → s.thread ≡ clearing
      → Step s (record s { thread = ended; loop_set = false; locked = false })
  -- `EventLoop::quit` by whoever uses the loop.
  ask : (s : Shared) → s.caller ≡ returned → s.loop_set ≡ true → Step s (record s { quit = true })
  -- The destructor: a thread that was not joined ends the program.
  destroy :
      (s : Shared)
      → s.caller ≡ returned
      → s.loop_set ≡ true
      → Step s (record s { caller = joining; quit = true })
  join :
      (s : Shared) → s.caller ≡ joining → s.thread ≡ ended → Step s (record s { caller = joined })
  abandon :
      (s : Shared)
      → s.caller ≡ returned
      → s.loop_set ≡ false
      → Step s (record s { caller = terminated })

-- A wait may also end for no reason.
pub data Spurious : Shared → Shared → Type 0 where
  wake : (s : Shared) → s.caller ≡ waiting → Spurious s (record s { caller = relocking })

pub data Reach (s : Shared) : Shared → Type 0 where
  here : Reach s s
  next : {t u : Shared} → Reach s t → Step t u → Reach s u
  woke : {t u : Shared} → Reach s t → Spurious t u → Reach s u
