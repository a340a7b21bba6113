-- ===== src/Net/LoopTurn/RunAfter.antt =====
-- A function given to runAfter runs in the turn in which its delay is over.
use gd_rpc.Base.{
  refl, ℕ, suc, ◌≡◌, ◌+◌, ◌/◌, ap, ◌∙◌, List, false, some, ◌&&◌, ◌==◌, ltb, if◌then◌else◌, arith,
}
use gd_rpc.Base.Int.{ℤ, pos}
use gd_rpc.Util.TimeWheel.{elapsed, new_task, repeats, add_task, del_task, Added}
use gd_rpc.Util.TimeWheel.Due.{IsValid, IsReady}
use gd_rpc.Util.TimeWheel.Ticks.{runs}
use gd_rpc.Util.TimeWheel.Adding.{times, add_task-IsValid, add_task-IsReady, times-runs}
use gd_rpc.Util.TimeWheel.Cancelling.{HasOldIds, del_task-IsValid, del_task-IsReady, runs-cancelled}
use gd_rpc.Net.Channel.{Callback}
use gd_rpc.Net.LoopTurn.{cancel, LoopState, Ran, Input, loop_turns, run_after}
use gd_rpc.Net.LoopTurn.Timers.{timers, Rising, last_time, loop_turns_lem}

-- If the indices of the wheel are in range, the rounds given to it suffice and none of its tasks
-- repeats, nor the new one, and the times of the turns do not fall: after `runAfter` with a delay that
-- is not negative all the turns return, given one round more. In them, `k` ms being between the time
-- that the wheel knew and the last turn, every function runs as often as it stood among those with a
-- delay below `k` before, and the new one once more if its delay is below `k`.
pub run_after-loop_turns :
    (body : ℕ → List ℕ) (on_call : ℕ → Callback → List ℕ) (rounds delay f : ℕ) (garbage : ℤ)
    (is : List Input) (s : LoopState)
    → IsValid s.wheel
    → IsReady rounds s.wheel
    → repeats (new_task s.wheel.next_id (delay / s.wheel.slot_len) delay garbage f) ≡ false
    → Rising s.wheel.start_time is
    → let k = elapsed (last_time s.wheel.start_time is) s.wheel.start_time in
      let (_, s1) = run_after body (pos delay) f garbage s in
      (ran : List Ran) × (s' : LoopState) × (loop_turns body on_call (suc rounds) is s1
        ≡ some (ran, s'))
      × ((g : ℕ)
          → times g (timers ran)
            ≡ times g (runs 0 k s.wheel) + (if ltb delay k && g == f then 1 else 0))
unfolding run_after add_task
run_after-loop_turns body on_call rounds delay f garbage is s v r e h =
    let k = elapsed (last_time s.wheel.start_time is) s.wheel.start_time in
    let s1 = (run_after body (pos delay) f garbage s).1 in
    let (ran, s', q, t, _, _, _, _) =
      loop_turns_lem body on_call (suc rounds) is s1 (add_task-IsValid delay f garbage s.wheel v)
        (add_task-IsReady delay f garbage s.wheel v rounds r e) h in
    (ran, s', q, λ g. ap (times g) t ∙ times-runs delay f garbage s.wheel v g 0 k ∙ ground arith)

-- If the indices of the wheel are in range, the rounds given to it suffice, none of its tasks repeats,
-- nor the new one, none has an identity that is still to be given, and the times of the turns do not
-- fall: when the task that `runAfter` filed, with a delay that is not negative, is removed before the
-- first turn, all the turns return, given one round more, and the scheduled functions that they run,
-- `k` ms being between the time that the wheel knew and the last turn, are those with a delay below
-- `k` before either call, by rising delay.
pub cancel-run_after :
    (body : ℕ → List ℕ) (on_call : ℕ → Callback → List ℕ) (rounds delay f : ℕ) (garbage : ℤ)
    (is : List Input) (s : LoopState)
    → IsValid s.wheel
    → IsReady rounds s.wheel
    → HasOldIds s.wheel
    → repeats (new_task s.wheel.next_id (delay / s.wheel.slot_len) delay garbage f) ≡ false
    → Rising s.wheel.start_time is
    → let k = elapsed (last_time s.wheel.start_time is) s.wheel.start_time in
      let (added, s1) = run_after body (pos delay) f garbage s in
      (added ≡ Added.filed s.wheel.next_id)
      × ((ran : List Ran) × (s' : LoopState) × (loop_turns body on_call
              (suc rounds)
              is
              (cancel s.wheel.next_id s1)
            ≡ some (ran, s'))
          × (timers ran ≡ runs 0 k s.wheel))
unfolding run_after add_task cancel del_task
cancel-run_after body on_call rounds delay f garbage is s v r o e h =
    let id = s.wheel.next_id in
    let k = elapsed (last_time s.wheel.start_time is) s.wheel.start_time in
    let w1 = (add_task (pos delay) f garbage s.wheel).1 in
    let s2 = cancel id (run_after body (pos delay) f garbage s).1 in
    let (ran, s', q, t, _, _, _, _) =
      loop_turns_lem body on_call (suc rounds) is s2
        (del_task-IsValid id w1 (add_task-IsValid delay f garbage s.wheel v))
        (del_task-IsReady id (suc rounds) w1
          (add_task-IsReady delay f garbage s.wheel v rounds r e))
        h in
    (refl, (ran, s', q, t ∙ runs-cancelled delay f garbage s.wheel 0 k v o))
