-- ===== src/Net/LoopTurn/Timers.antt =====
-- Over many turns, whatever their times, no scheduled function is lost or runs twice.
use gd_rpc.Base.{
  ℕ, zero, suc, ◌≡◌, ◌+◌, ◌≤◌, refl, sym, ap, ◌∙◌, subst, List, [], ◌∷◌, ◌++◌, Option, some, map,
  append_assoc, append-nil, arith,
}
use gd_rpc.Base.Int.{ℤ, ◌-ℤ◌, ◌≤ℤ◌}
use gd_rpc.Util.TimeWheel.{TimeWheel, elapsed}
use gd_rpc.Util.TimeWheel.Due.{IsValid, IsReady, pending, functions}
use gd_rpc.Util.TimeWheel.Ticks.{runs}
use gd_rpc.Net.Channel.{Callback, Revents}
use gd_rpc.Net.LoopTurn.{
  LoopState, Ran, scheduled, functor, called, loop_turn, Input, ran_before, and_turns, loop_turns,
  callbacks_of, Watched,
}
use gd_rpc.Net.LoopTurn.Order.{loop_turn_lem, calls_of, events_of, due}

-- The scheduled functions of what ran.
abbrev pub timers : List Ran → List ℕ
timers [] = []
timers (scheduled f ∷ rs) = f ∷ timers rs
timers (functor f ∷ rs) = timers rs
timers (called ptr c ∷ rs) = timers rs

timers-append : (rs more : List Ran) → timers (rs ++ more) ≡ timers rs ++ timers more
timers-append [] more = refl
timers-append (scheduled f ∷ rs) more = ap (λ l. f ∷ l) (timers-append rs more)
timers-append (functor f ∷ rs) more = timers-append rs more
timers-append (called ptr c ∷ rs) more = timers-append rs more

timers-scheduled : (fs : List ℕ) → timers (map scheduled fs) ≡ fs
timers-scheduled [] = refl
timers-scheduled (f ∷ fs) = ap (λ l. f ∷ l) (timers-scheduled fs)

timers-functor : (fs : List ℕ) → timers (map functor fs) ≡ []
timers-functor [] = refl
timers-functor (f ∷ fs) = timers-functor fs

timers-called : (ptr : ℕ) (cs : List Callback) → timers (map (called ptr) cs) ≡ []
timers-called ptr [] = refl
timers-called ptr (c ∷ cs) = timers-called ptr cs

elapsed_add :
    (start a b : ℤ) → start ≤ℤ a → a ≤ℤ b → elapsed b start ≡ elapsed a start + elapsed b a
unfolding ◌-ℤ◌
elapsed_add start a b h k = ground (arith, h, k)

-- The functions with a delay of `i` up to `i + k + m - 1`.
runs_add : (i k m : ℕ) (w : TimeWheel) → runs i (k + m) w ≡ runs i k w ++ runs (i + k) m w
runs_add i zero m w =
    let p : i ≡ i + 0 = omega arith in let q : 0 + m ≡ m = omega arith in λ j. runs (p j) (q j) w
runs_add i (suc k) m w =
    let p : i + 1 + k ≡ i + suc k = omega arith in
    let q : suc k + m ≡ suc (k + m) = omega arith in
    (λ j. runs i (q j) w)
    ∙ ap (λ l. functions (pending i w) ++ l)
        (runs_add (i + 1) k m w ∙ (λ j. runs (i + 1) k w ++ runs (p j) m w))
    ∙ sym (append_assoc (functions (pending i w)) (runs (i + 1) k w) (runs (i + suc k) m w))

runs_later :
    (i k m : ℕ) (w w' : TimeWheel)
    → ((n : ℕ) → functions (pending n w') ≡ functions (pending (n + k) w))
    → runs i m w' ≡ runs (i + k) m w
runs_later i k zero w w' h = refl
runs_later i k (suc m) w w' h =
    (λ j. h i j ++ runs_later (i + 1) k m w w' h j)
    ∙ (let p : i + 1 + k ≡ i + k + 1 = omega arith in
        λ j. functions (pending (i + k) w) ++ runs (p j) m w)

-- The times of the turns do not fall.
abbrev pub Rising : ℤ → List Input → Type 0
Rising start [] = 0 ≤ 0
Rising start (i ∷ is) = (start ≤ℤ i.now) × Rising i.now is

abbrev pub last_time : ℤ → List Input → ℤ
last_time start [] = start
last_time start (i ∷ is) = last_time i.now is

le_trans : (a b c : ℤ) → a ≤ℤ b → b ≤ℤ c → a ≤ℤ c
le_trans a b c h k = omega (arith, h, k)

Rising-last_time : (start : ℤ) (is : List Input) → Rising start is → start ≤ℤ last_time start is
Rising-last_time start [] h = omega arith
Rising-last_time start (i ∷ is) (h, hs) =
    le_trans start i.now (last_time i.now is) h (Rising-last_time i.now is hs)

elapsed_none : (start : ℤ) → elapsed start start ≡ 0
unfolding ◌-ℤ◌
elapsed_none start = ground arith

module _ (body : ℕ → List ℕ) (on_call : ℕ → Callback → List ℕ) where
  timers-calls_of :
      (watched : ℕ → Watched) (wakeup : ℕ) (active : List (ℕ × Revents))
      → timers (calls_of on_call watched wakeup active) ≡ []
  timers-calls_of watched wakeup [] = refl
  timers-calls_of watched wakeup ((ptr, r) ∷ active) =
      let cs = callbacks_of on_call watched wakeup ptr r in
      timers-append (map (called ptr) cs) (calls_of on_call watched wakeup active)
      ∙ (λ j. timers-called ptr cs j ++ timers-calls_of watched wakeup active j)

  timers-turn :
      (fs : List ℕ) (calls : List Ran) (gs : List ℕ)
      → timers calls ≡ []
      → timers (map scheduled fs ++ (calls ++ map functor gs)) ≡ fs
  timers-turn fs calls gs h =
      timers-append (map scheduled fs) (calls ++ map functor gs)
      ∙ (λ j.
          timers-scheduled fs j
          ++ (timers-append calls (map functor gs) ∙ (λ m. h m ++ timers-functor gs m)) j)
      ∙ append-nil fs

  and_turns-some :
      (o : Option (List Ran × LoopState)) (k : LoopState → Option (List Ran × LoopState))
      (rs more : List Ran) (s s' : LoopState)
      → o ≡ some (rs, s)
      → k s ≡ some (more, s')
      → and_turns o k ≡ some (rs ++ more, s')
  and_turns-some o k rs more s s' e f = ap (λ x. and_turns x k) e ∙ ap (ran_before rs) f

  -- If the indices of the wheel are in range, the rounds given to it suffice and none of its tasks
  -- repeats, and the times of the turns do not fall: all the turns return, and the scheduled functions
  -- that they run, `k` ms being between the first time that the wheel knew and the last turn, are
  -- exactly those with a delay below `k`, by rising delay, however the turns divide the time. Every
  -- other function is due `k` ms earlier.
  pub loop_turns_lem :
      (rounds : ℕ) (is : List Input) (s : LoopState)
      → IsValid s.wheel
      → IsReady rounds s.wheel
      → Rising s.wheel.start_time is
      → let now = last_time s.wheel.start_time is in
        let k = elapsed now s.wheel.start_time in
        (ran : List Ran) × (s' : LoopState) × (loop_turns body on_call rounds is s ≡ some (ran, s'))
        × (timers ran ≡ runs 0 k s.wheel)
        × IsValid s'.wheel
        × IsReady rounds s'.wheel
        × (s'.wheel.start_time ≡ now)
        × ((n : ℕ) → functions (pending n s'.wheel) ≡ functions (pending (n + k) s.wheel))
  unfolding loop_turns
  loop_turns_lem rounds [] s v r h =
      let e : 0 ≡ elapsed s.wheel.start_time s.wheel.start_time =
        sym (elapsed_none s.wheel.start_time) in
      (
        [],
        s,
        refl,
        (λ j. runs 0 (e j) s.wheel),
        v,
        r,
        refl,
        λ n.
            let p : n ≡ n + elapsed s.wheel.start_time s.wheel.start_time = omega (arith, e) in
            λ j. functions (pending (p j) s.wheel),
      )
  loop_turns_lem rounds (i ∷ is) s v r (h, hs) =
      let start = s.wheel.start_time in
      let now = last_time i.now is in
      let (s1, e1, _, _, v1, r1, t1, f1) =
        loop_turn_lem body on_call i.watched rounds i.waited i.now s v r in
      let (more, s2, e2, m2, v2, r2, t2, f2) =
        loop_turns_lem rounds is s1 v1 r1 (subst (λ x. Rising x is) (sym t1) hs) in
      let last : last_time s1.wheel.start_time is ≡ now = ap (λ x. last_time x is) t1 in
      let k1 = elapsed i.now start in
      let k2 = elapsed (last_time s1.wheel.start_time is) s1.wheel.start_time in
      let sum : k1 + k2 ≡ elapsed now start =
        (λ j. k1 + elapsed (last j) (t1 j))
        ∙ sym (elapsed_add start i.now now h (Rising-last_time i.now is hs)) in
      let fs = runs 0 k1 s.wheel in
      let calls = calls_of on_call i.watched s.wakeup_channel (events_of i.waited) in
      let gs = due body on_call i.watched fs calls s in
      let ran = map scheduled fs ++ (calls ++ map functor gs) in
      let m1 =
        timers-turn fs calls gs (timers-calls_of i.watched s.wakeup_channel (events_of i.waited)) in
      (
        ran ++ more,
        s2,
        and_turns-some (loop_turn body on_call i.watched rounds i.waited i.now s)
            (loop_turns body on_call rounds is) ran more s1 s2 e1 e2,
        timers-append ran more
            ∙ (λ j. m1 j ++ (m2 ∙ runs_later 0 k1 k2 s.wheel s1.wheel f1) j)
            ∙ sym (runs_add 0 k1 k2 s.wheel)
            ∙ (λ j. runs 0 (sum j) s.wheel),
        v2,
        r2,
        t2 ∙ last,
        λ n.
            f2 n
            ∙ f1 (n + k2)
            ∙ (let p : n + k2 + k1 ≡ n + elapsed now start = omega (arith, sum) in
                λ j. functions (pending (p j) s.wheel)),
      )
