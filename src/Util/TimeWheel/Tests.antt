-- ===== src/Util/TimeWheel/Tests.antt =====
-- Runs of the wheel, and its theorems at concrete wheels.
use gd_rpc.Base.{
  ℕ, zero, suc, ◌≡◌, ◌+◌, refl, ◌++◌, [], ◌∷◌, some, none, arith, if◌then◌else◌, ◌==◌,
}
use gd_rpc.Base.Int.{pos, ◌-ℤ◌}
use gd_rpc.Util.TimeWheel.{Task, TimeWheel, new_task, add_task, tick, ticks, take_all_timeout}
use gd_rpc.Util.TimeWheel.Due.{IsValid, IsReady, pending, functions, pending-add_task}
use gd_rpc.Util.TimeWheel.Ticks.{runs, endless, ticks_lem, take_all_timeout_lem, tick-endless}

abbrev once : ℕ → ℕ → ℕ → Task
once id rotations f = new_task id rotations f (pos 0) f

-- Four slots, the third is current: functions with the delays 1, 5 and 2, each named by its delay.
abbrev filled : TimeWheel
filled = record {
  slot_len = 4;
  current = 2;
  start_time = pos 10;
  slots = (once 2 0 2 ∷ []) ∷ [] ∷ [] ∷ (once 0 0 1 ∷ once 1 1 5 ∷ []) ∷ [];
  next_id = 3;
}

filled-IsValid : IsValid filled
filled-IsValid = omega arith

filled-IsReady : IsReady 3 filled
filled-IsReady zero = ((refl, tt), omega arith)
filled-IsReady (suc zero) = (tt, omega arith)
filled-IsReady (suc (suc zero)) = (tt, omega arith)
filled-IsReady (suc (suc (suc zero))) = ((refl, (refl, tt)), omega arith)
filled-IsReady (suc (suc (suc (suc i)))) = (tt, omega arith)

ticks_lem_example :
    (w' : TimeWheel) × (ticks 3 6 filled ≡ some (runs 0 6 filled, w'))
    × IsValid w'
    × IsReady 3 w'
    × ((n : ℕ) → functions (pending n w') ≡ functions (pending (n + 6) filled))
ticks_lem_example = ticks_lem 3 6 filled filled-IsValid filled-IsReady

runs-filled : runs 0 6 filled ≡ 1 ∷ 2 ∷ 5 ∷ []
unfolding pending
runs-filled = refl

take_all_timeout_lem_sample :
    (w' : TimeWheel) × (take_all_timeout 3 (pos 13) filled ≡ some (runs 0 3 filled, w'))
    × IsValid w'
    × IsReady 3 w'
    × (w'.start_time ≡ pos 13)
    × ((n : ℕ) → functions (pending n w') ≡ functions (pending (n + 3) filled))
unfolding ◌-ℤ◌
take_all_timeout_lem_sample = take_all_timeout_lem 3 (pos 13) filled filled-IsValid filled-IsReady

pending-add_task_sample :
    pending 7 (add_task (pos 7) 9 (pos 0) filled).1
    ≡ (if 7 == 7 then pending 7 filled ++ (new_task 3 1 7 (pos 0) 9 ∷ []) else pending 7 filled)
pending-add_task_sample = pending-add_task 7 9 (pos 0) filled 7 filled-IsValid

-- One slot, and in it a task with delay 0 that repeats for ever.
abbrev stuck : TimeWheel
stuck = record {
  slot_len = 1;
  current = 0;
  start_time = pos 0;
  slots = (endless 0 0 8 ∷ []) ∷ [];
  next_id = 1;
}

tick-endless_example : tick 100 stuck ≡ none
tick-endless_example = tick-endless 100 stuck 0 8 (omega arith) refl
