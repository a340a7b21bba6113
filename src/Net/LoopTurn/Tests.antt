-- ===== src/Net/LoopTurn/Tests.antt =====
-- A loop whose wheel has functions with the delays 1, 5 and 2, with a connection's channel, 5, and the
-- wakeup channel, 0.
use gd_rpc.Base.{
  ◌&&◌, ℕ, zero, suc, ◌≡◌, ◌+◌, refl, List, [], ◌∷◌, ◌++◌, true, false, some, arith, if◌then◌else◌,
  ◌==◌, map,
}
use gd_rpc.Base.Int.{ℤ, pos, ◌-ℤ◌}
use gd_rpc.Util.TimeWheel.{Task, TimeWheel, new_task}
use gd_rpc.Util.TimeWheel.Due.{IsValid, IsReady, pending, functions}
use gd_rpc.Util.TimeWheel.Ticks.{runs}
use gd_rpc.Net.Channel.{
  Callback, read_callback, write_callback, Revents, added, handle_event, handle_event_with_guard,
}
use gd_rpc.Net.Poller.{ready, interrupted}
use gd_rpc.Net.EventLoop.Functors.{all_queued, IsAwake}
use gd_rpc.Util.TimeWheel.Adding.{times}
use gd_rpc.Net.LoopTurn.Timers.{timers, loop_turns_lem}
use gd_rpc.Util.TimeWheel.Cancelling.{HasOldIds}
use gd_rpc.Net.LoopTurn.RunAfter.{run_after-loop_turns, cancel-run_after}
use gd_rpc.Util.TimeWheel.{Added}
use gd_rpc.Net.LoopTurn.{cancel}
use gd_rpc.Net.LoopTurn.{
  Ran, Input, loop_turns, run_after, Watched, LoopState, scheduled, functor, called, loop_turn,
}
use gd_rpc.Net.LoopTurn.Order.{calls_of, due, loop_turn_lem}

abbrev once : ℕ → ℕ → ℕ → Task
once id rotations f = new_task id rotations f (pos 0) f

abbrev filled : TimeWheel
filled = record {
  slot_len = 4;
  current = 2;
  start_time = pos 10;
  slots = (once 2 0 2 ∷ []) ∷ [] ∷ [] ∷ (once 0 0 1 ∷ once 1 1 5 ∷ []) ∷ [];
  next_id = 3;
}

filled-IsValid : IsValid filled
filled-IsValid = omega arith

filled-IsReady : IsReady 3 filled
filled-IsReady zero = ((refl, tt), omega arith)
filled-IsReady (suc zero) = (tt, omega arith)
filled-IsReady (suc (suc zero)) = (tt, omega arith)
filled-IsReady (suc (suc (suc zero))) = ((refl, (refl, tt)), omega arith)
filled-IsReady (suc (suc (suc (suc i)))) = (tt, omega arith)

-- One functor is pending.
abbrev state : LoopState
state = record {
  loop = record {
    looping = true;
    quit = false;
    pending_functors = 100 ∷ [];
    calling_pending_functors = false;
    wakeups = 1;
  };
  wheel = filled;
  poller = record { channels = (0, 0) ∷ (5, 5) ∷ []; event_slots = 16 };
  wakeup_channel = 0;
}

abbrev watched : ℕ → Watched
watched ptr = record {
  channel = record {
    fd = ptr;
    events = record { reads = true; writes = true };
    state = added;
    tied = false;
  };
  callbacks = record { close_set = false; error_set = false; read_set = true; write_set = true };
  alive = true;
}

-- The scheduled function 1 queues 101, and the functor 101 queues 103.
abbrev body : ℕ → List ℕ
body f = if f == 1 then 101 ∷ [] else if f == 101 then 103 ∷ [] else []

-- What is read queues 102.
abbrev on_call : ℕ → Callback → List ℕ
on_call ptr c = elim c [ read_callback ↦ 102 ∷ [] | _ ↦ [] ]

abbrev readable : Revents
readable = record { hup = false; err = false; inp = true; pri = false; out = false }

abbrev events : List (ℕ × Revents)
events = (0, readable) ∷ (5, record readable { out = true }) ∷ []

loop_turn_lem_example :
    let fs = runs 0 3 filled in
    let calls = calls_of on_call watched 0 events in
    (s' : LoopState) × (loop_turn body on_call watched 3 (ready events) (pos 13) state
      ≡ some (
        map scheduled fs ++ (calls ++ map functor (due body on_call watched fs calls state)),
        s',
      ))
    × (s'.loop.pending_functors ≡ all_queued body (due body on_call watched fs calls state))
    × IsAwake s'.loop
    × IsValid s'.wheel
    × IsReady 3 s'.wheel
    × (s'.wheel.start_time ≡ pos 13)
    × ((n : ℕ) → functions (pending n s'.wheel) ≡ functions (pending (n + 3) filled))
unfolding ◌-ℤ◌
loop_turn_lem_example =
    loop_turn_lem body on_call watched 3 (ready events) (pos 13) state filled-IsValid filled-IsReady

-- In order: 1 and 2; what was waited for; 100, 101 and 102.
ran-order :
    let calls = calls_of on_call watched 0 events in
    map scheduled (runs 0 3 filled)
      ++ (calls ++ map functor (due body on_call watched (runs 0 3 filled) calls state))
    ≡ scheduled 1
      ∷ scheduled 2
      ∷ called 0 read_callback
      ∷ called 5 read_callback
      ∷ called 5 write_callback
      ∷ functor 100
      ∷ functor 101
      ∷ functor 102
      ∷ []
unfolding pending handle_event handle_event_with_guard
ran-order = refl

-- Turns at 11, 13 and 13, without events.
abbrev quiet : ℤ → Input
quiet now = record { waited = interrupted; now = now; watched = watched }

abbrev turns : List Input
turns = quiet (pos 11) ∷ quiet (pos 13) ∷ quiet (pos 13) ∷ []

loop_turns_lem_example :
    (ran : List Ran) × (s' : LoopState) × (loop_turns body on_call 3 turns state ≡ some (ran, s'))
    × (timers ran ≡ runs 0 3 filled)
    × IsValid s'.wheel
    × IsReady 3 s'.wheel
    × (s'.wheel.start_time ≡ pos 13)
    × ((n : ℕ) → functions (pending n s'.wheel) ≡ functions (pending (n + 3) filled))
unfolding ◌-ℤ◌
loop_turns_lem_example =
    loop_turns_lem body on_call 3 turns state filled-IsValid filled-IsReady (omega arith)

run_after-loop_turns_example :
    let (_, s1) = run_after body (pos 2) 7 (pos 0) state in
    (ran : List Ran) × (s' : LoopState) × (loop_turns body on_call 4 turns s1 ≡ some (ran, s'))
    × ((g : ℕ)
        → times g (timers ran) ≡ times g (runs 0 3 filled) + (if true && g == 7 then 1 else 0))
unfolding ◌-ℤ◌
run_after-loop_turns_example =
    run_after-loop_turns body on_call 3 2 7 (pos 0) turns state filled-IsValid filled-IsReady refl
      (omega arith)

filled-HasOldIds : HasOldIds filled
filled-HasOldIds zero = (omega arith, omega arith)
filled-HasOldIds (suc zero) = omega arith
filled-HasOldIds (suc (suc zero)) = omega arith
filled-HasOldIds (suc (suc (suc zero))) = (omega arith, (omega arith, omega arith))
filled-HasOldIds (suc (suc (suc (suc i)))) = omega arith

cancel-run_after_example :
    let (task, s1) = run_after body (pos 2) 7 (pos 0) state in
    (task ≡ Added.filed 3)
    × ((ran : List Ran) × (s' : LoopState) × (loop_turns body on_call 4 turns (cancel 3 s1)
          ≡ some (ran, s'))
        × (timers ran ≡ runs 0 3 filled))
unfolding ◌-ℤ◌
cancel-run_after_example =
    cancel-run_after body on_call 3 2 7 (pos 0) turns state filled-IsValid filled-IsReady
      filled-HasOldIds refl (omega arith)
