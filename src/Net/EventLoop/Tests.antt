-- ===== src/Net/EventLoop/Tests.antt =====
-- Functor 1 queues 5 and 6 as it runs, and no other queues any.
use gd_rpc.Base.{ℕ, ◌≡◌, refl, List, [], ◌∷◌, ◌++◌, true, false, arith, ◌==◌, if◌then◌else◌}
use gd_rpc.Net.EventLoop.{
  new_loop, Event, queues, quits, loops, turns, run, step, queue_in_loop, do_pending_functors,
  handle_read, wakeup, quit_loop, start_loop,
}
use gd_rpc.Net.EventLoop.Functors.{IsAwake, run_lem, all_queued_by}

abbrev body : ℕ → List ℕ
body f = if f == 1 then 5 ∷ 6 ∷ [] else []

abbrev script : List Event
script =
    queues 1
    ∷ loops
    ∷ queues 2
    ∷ turns (3 ∷ [])
    ∷ queues 4
    ∷ turns []
    ∷ quits
    ∷ queues 7
    ∷ turns []
    ∷ []

run-script : run body script new_loop ≡ (
  1 ∷ 2 ∷ 3 ∷ 5 ∷ 6 ∷ 4 ∷ [],
  record {
    looping = false;
    quit = true;
    pending_functors = 7 ∷ [];
    calling_pending_functors = false;
    wakeups = 2;
  },
)
unfolding run step queue_in_loop do_pending_functors handle_read wakeup quit_loop start_loop
    new_loop
run-script = refl

-- A request to quit that comes before the loop is forgotten.
run-quits : (run body (quits ∷ loops ∷ []) new_loop).1.quit ≡ false
unfolding run step wakeup quit_loop start_loop
run-quits = refl

run_lem_example :
    let (ran, l') = run body script new_loop in
    (ran ++ l'.pending_functors ≡ all_queued_by body script new_loop) × IsAwake l'
unfolding new_loop
run_lem_example = run_lem body script new_loop (omega arith, refl)
