-- ===== src/Util/TimeWheel/Ticks.antt =====
-- What many ticks run.
use gd_rpc.Base.{
  ℕ, zero, suc, ◌+◌, ◌/◌, ◌%◌, ◌<◌, ◌≡◌, refl, ap, ◌∙◌, List, [], ◌∷◌, ◌++◌, none, some, arith,
}
use gd_rpc.Base.Int.{ℤ, negsuc}
use gd_rpc.Util.TimeWheel.{
  Task, TimeWheel, slot_at, tick_slot, tick, ticks, take_all_timeout, elapsed,
}
use gd_rpc.Util.TimeWheel.Due.{
  IsValid, IsReady, pending, functions, tick_lem, start_time-IsValid, pending-start_time,
}

-- The functions with a delay of `i` up to `i + k - 1` ticks, shortest delay first.
abbrev pub runs : ℕ → ℕ → TimeWheel → List ℕ
runs i zero w = []
runs i (suc k) w = functions (pending i w) ++ runs (i + 1) k w

runs_shifted :
    (i k : ℕ) (w w' : TimeWheel)
    → ((n : ℕ) → functions (pending n w') ≡ functions (pending (n + 1) w))
    → runs i k w' ≡ runs (i + 1) k w
runs_shifted i zero w w' h = refl
runs_shifted i (suc k) w w' h = rw (h i, runs_shifted (i + 1) k w w' h)

-- On a wheel whose indices are in range, whose tasks do not repeat and whose slots hold fewer tasks
-- than the rounds given, `k` ticks return. They run every function with a delay below `k`, each as
-- often as it was filed, by rising delay and, at one delay, in the order of filing; they run nothing
-- else, and every other function is then due `k` ticks earlier.
pub ticks_lem :
    (rounds k : ℕ) (w : TimeWheel)
    → IsValid w
    → IsReady rounds w
    → (w' : TimeWheel) × (ticks rounds k w ≡ some (runs 0 k w, w'))
      × IsValid w'
      × IsReady rounds w'
      × ((n : ℕ) → functions (pending n w') ≡ functions (pending (n + k) w))
unfolding ticks
ticks_lem rounds zero w v r =
    (w, refl, v, r, λ n. ap (λ m. functions (pending m w)) {x = n} {y = n + 0} (omega arith))
ticks_lem rounds (suc k) w v r =
    let (w', e, v', r', h) = tick_lem rounds w v r in
    let (w'', e', v'', r'', h') = ticks_lem rounds k w' v' r' in
    (
      w'',
      rw (e, e', runs_shifted 0 k w w' h, ticks),
      v'',
      r'',
      λ n. h' n ∙ h (n + k) ∙ ap (λ m. functions (pending m w)) (omega arith),
    )

-- A task with delay 0 that repeats without end, `r` rotations before its turn.
abbrev pub endless : ℕ → ℕ → ℕ → Task
endless r id f = record { id = id; rotations = r; timeout = 0; times = negsuc 0; fun = some f }

tick_slot-endless :
    (rounds : ℕ) (w : TimeWheel) (kept : List Task) (r id f : ℕ)
    → w.current < w.slot_len
    → r ≡ 0
    → tick_slot rounds w kept (endless r id f ∷ []) ≡ none
unfolding tick_slot
tick_slot-endless zero w kept r id f c e = refl
tick_slot-endless (suc k) w kept r id f c e =
    rw e (ground (arith, tick_slot-endless k w kept (0 / w.slot_len) id f c zero_div, here))
  where
    zero_div : 0 / w.slot_len ≡ 0
    zero_div = grind arith

    here : (w.current + 0 % w.slot_len) % w.slot_len ≡ w.current
    here = grind arith

-- On a wheel whose current slot is in range and holds one task, of delay 0, which repeats for ever,
-- the loop of `tick` never ends: no number of rounds suffices.
pub tick-endless :
    (rounds : ℕ) (w : TimeWheel) (id f : ℕ)
    → w.current < w.slot_len
    → slot_at w.slots w.current ≡ endless 0 id f ∷ []
    → tick rounds w ≡ none
unfolding tick
tick-endless rounds w id f c e = rw (e, tick_slot-endless rounds w [] 0 id f c refl, tick)

-- When the wheel is told the time `now`, `k` ms after the time that it was told last, it makes `k`
-- ticks: it runs every function with a delay below `k` and no other, remembers the time and is as ready as before. A time
-- that lies before the last one is remembered too, and runs nothing.
pub take_all_timeout_lem :
    (rounds : ℕ) (now : ℤ) (w : TimeWheel)
    → IsValid w
    → IsReady rounds w
    → let k = elapsed now w.start_time in
      (w' : TimeWheel) × (take_all_timeout rounds now w ≡ some (runs 0 k w, w'))
      × IsValid w'
      × IsReady rounds w'
      × (w'.start_time ≡ now)
      × ((n : ℕ) → functions (pending n w') ≡ functions (pending (n + k) w))
unfolding take_all_timeout
take_all_timeout_lem rounds now w v r =
    let (w', e, v', r', h) = ticks_lem rounds (elapsed now w.start_time) w v r in
    (
      record w' { start_time = now },
      rw (e, take_all_timeout),
      start_time-IsValid now v',
      r',
      refl,
      λ n. ap functions (pending-start_time n now w') ∙ h n,
    )
