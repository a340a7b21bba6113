-- ===== src/Net/LoopThread/Tests.antt =====
-- A start in which the caller waits for the loop.
use gd_rpc.Base.{◌≡◌, ◌⊎◌, refl, sym, true, false, not}
use gd_rpc.Net.LoopThread.{
  Shared, start, waiting, returned, joining, entering, looping, ended, wants, terminated, Step,
  spawn, lock, relock, wait, take_loop, init, lock_thread, publish, notify, release, enter_loop,
  end_loop, lock_again, clear, ask, destroy, abandon, Reach, here, next,
}
use gd_rpc.Net.LoopThread.Progress.{
  has_forgotten, Step-forgotten, no_deadlock, returned-ran, is_ended,
}

abbrev asleep : Shared
asleep = record {
  caller = waiting;
  thread = wants;
  locked = false;
  loop_set = false;
  quit = false;
  callback_ran = true;
}

Reach-asleep : Reach start asleep
Reach-asleep =
    next (next (next (next here (spawn _ refl)) (init _ refl)) (lock _ refl refl))
      (wait _ refl refl)

-- `startLoop` has returned, and the thread has not come to its loop.
abbrev early : Shared
early = record {
  caller = returned;
  thread = entering;
  locked = false;
  loop_set = true;
  quit = false;
  callback_ran = true;
}

Reach-early : Reach start early
Reach-early =
    next
      (next
        (next
          (next (next (next Reach-asleep (lock_thread _ refl refl)) (publish _ refl))
            (notify _ refl))
          (release _ refl))
        (relock _ refl refl))
      (take_loop _ refl refl)

abbrev running : Shared
running = record early { thread = looping }

Reach-running : Reach start running
Reach-running = next Reach-early (enter_loop _ refl)

-- A destructor that is called at once: the loop sets `quit_` to false and never ends.
abbrev forgotten : Shared
forgotten = record early { caller = joining; thread = looping }

Reach-forgotten : Reach start forgotten
Reach-forgotten = next (next Reach-early (destroy _ refl refl)) (enter_loop _ refl)

forgotten-Step : (t : Shared) → Step forgotten t → false ≡ true
forgotten-Step t st = sym (Step-forgotten st)

-- A loop that ended on request leaves the destructor with a thread that it does not join.
Reach-terminated : Reach start (record {
  caller = terminated;
  thread = ended;
  locked = false;
  loop_set = false;
  quit = true;
  callback_ran = true;
})
Reach-terminated =
    next
      (next
        (next (next (next Reach-running (ask _ refl refl)) (end_loop _ refl refl))
          (lock_again _ refl refl))
        (clear _ refl))
      (abandon _ refl refl)

no_deadlock_example : ((t : Shared) × Step asleep t) ⊎ (has_forgotten asleep ≡ true)
no_deadlock_example = no_deadlock Reach-asleep refl

returned-ran_example :
    (running.callback_ran ≡ true) × (running.loop_set ≡ not (is_ended running.thread))
returned-ran_example = returned-ran Reach-running refl
