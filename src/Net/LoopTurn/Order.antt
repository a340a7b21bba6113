-- ===== src/Net/LoopTurn/Order.antt =====
-- What a turn runs, and in which order.
use gd_rpc.Base.{
  ℕ, ◌≡◌, ◌+◌, refl, sym, ap, ◌∙◌, subst, List, [], ◌∷◌, ◌++◌, none, some, ◌==◌, if◌then◌else◌, map,
  append-nil, append_assoc, Bool-cases, inl, inr,
}
use gd_rpc.Base.Int.{ℤ}
use gd_rpc.Util.TimeWheel.{TimeWheel, elapsed}
use gd_rpc.Util.TimeWheel.Due.{IsValid, IsReady, pending, functions}
use gd_rpc.Util.TimeWheel.Ticks.{runs, take_all_timeout_lem}
use gd_rpc.Net.Channel.{Callback, Revents}
use gd_rpc.Net.Poller.{Poller, Waited, ready, interrupted, failed, poll}
use gd_rpc.Net.EventLoop.{EventLoop, handle_read, call_all}
use gd_rpc.Net.EventLoop.Functors.{
  all_queued, queue_all-Queued, call_all-Queued, do_pending_functors_lem, IsAwake,
}
use gd_rpc.Net.LoopTurn.{
  Watched, LoopState, Ran, scheduled, functor, called, run_callback, run_callbacks, callbacks_of,
  handle_active, after_scheduled, loop_turn,
}

-- The events that were waited for; none after a signal or an error.
abbrev pub events_of : Waited → List (ℕ × Revents)
events_of (ready es) = es
events_of interrupted = []
events_of failed = []

poll-events_of : (waited : Waited) (p : Poller) → (poll waited [] p).0 ≡ events_of waited
unfolding poll
poll-events_of (ready []) p = refl
poll-events_of (ready (e ∷ es)) p = refl
poll-events_of interrupted p = refl
poll-events_of failed p = refl

-- The loop's queue has grown by `fs`, outside of `doPendingFunctors`.
abbrev Grown : List ℕ → EventLoop → EventLoop → Type 0
Grown fs l l' =
    (l'.pending_functors ≡ l.pending_functors ++ fs)
    × (l'.calling_pending_functors ≡ l.calling_pending_functors)

Grown-append :
    (fs gs : List ℕ) (l1 l2 l3 : EventLoop)
    → Grown fs l1 l2
    → Grown gs l2 l3
    → Grown (fs ++ gs) l1 l3
Grown-append fs gs l1 l2 l3 (p, c) (p', c') =
    (p' ∙ ap (λ l. l ++ gs) p ∙ append_assoc l1.pending_functors fs gs, c' ∙ c)

module _ (on_call : ℕ → Callback → List ℕ) (watched : ℕ → Watched) (wakeup : ℕ) where
  -- Each callback of each event, in order.
  abbrev pub calls_of : List (ℕ × Revents) → List Ran
  calls_of [] = []
  calls_of ((ptr, r) ∷ active) =
      map (called ptr) (callbacks_of on_call watched wakeup ptr r) ++ calls_of active

  -- What a callback queues; the wakeup channel's queues nothing.
  abbrev pub queued_by : ℕ → Callback → List ℕ
  queued_by ptr c = if ptr == wakeup then [] else on_call ptr c

  abbrev pub queued_by_all : List Ran → List ℕ
  queued_by_all [] = []
  queued_by_all (called ptr c ∷ rs) = queued_by ptr c ++ queued_by_all rs
  queued_by_all (scheduled f ∷ rs) = queued_by_all rs
  queued_by_all (functor f ∷ rs) = queued_by_all rs

  queued_by_all-append :
      (rs more : List Ran) → queued_by_all (rs ++ more) ≡ queued_by_all rs ++ queued_by_all more
  queued_by_all-append [] more = refl
  queued_by_all-append (called ptr c ∷ rs) more =
      ap (λ l. queued_by ptr c ++ l) (queued_by_all-append rs more)
      ∙ sym (append_assoc (queued_by ptr c) (queued_by_all rs) (queued_by_all more))
  queued_by_all-append (scheduled f ∷ rs) more = queued_by_all-append rs more
  queued_by_all-append (functor f ∷ rs) more = queued_by_all-append rs more

  run_callback-Grown :
      (ptr : ℕ) (c : Callback) (l : EventLoop)
      → Grown (queued_by ptr c) l (run_callback on_call watched wakeup ptr c l)
  unfolding handle_read
  run_callback-Grown ptr c l = elim (Bool-cases (ptr == wakeup)) [
    | inl t ↦ rw (t, handle_read) (sym (append-nil l.pending_functors), refl)
    | inr t ↦ let (p, _, q, _) = queue_all-Queued (on_call ptr c) l in rw t (p, q)
  ]

  run_callbacks-Grown :
      (ptr : ℕ) (cs : List Callback) (l : EventLoop)
      → let (ran, l') = run_callbacks on_call watched wakeup ptr cs l in
        (ran ≡ map (called ptr) cs) × Grown (queued_by_all (map (called ptr) cs)) l l'
  run_callbacks-Grown ptr [] l = (refl, (sym (append-nil l.pending_functors), refl))
  run_callbacks-Grown ptr (c ∷ cs) l =
      let l1 = run_callback on_call watched wakeup ptr c l in
      let (e, g) = run_callbacks-Grown ptr cs l1 in
      (
        ap (λ r. called ptr c ∷ r) e,
        Grown-append (queued_by ptr c) (queued_by_all (map (called ptr) cs)) l l1
            (run_callbacks on_call watched wakeup ptr cs l1).1 (run_callback-Grown ptr c l) g,
      )

  handle_active-Grown :
      (active : List (ℕ × Revents)) (l : EventLoop)
      → let (ran, l') = handle_active on_call watched wakeup active l in
        (ran ≡ calls_of active) × Grown (queued_by_all (calls_of active)) l l'
  handle_active-Grown [] l = (refl, (sym (append-nil l.pending_functors), refl))
  handle_active-Grown ((ptr, r) ∷ active) l =
      let cs = callbacks_of on_call watched wakeup ptr r in
      let l1 = (run_callbacks on_call watched wakeup ptr cs l).1 in
      let (e, g) = run_callbacks-Grown ptr cs l in
      let (e', g') = handle_active-Grown active l1 in
      (
        (λ i. e i ++ e' i),
        subst (λ fs. Grown fs l (handle_active on_call watched wakeup active l1).1)
            (sym (queued_by_all-append (map (called ptr) cs) (calls_of active)))
            (Grown-append (queued_by_all (map (called ptr) cs)) (queued_by_all (calls_of active)) l
              l1 (handle_active on_call watched wakeup active l1).1 g g'),
      )

module _ (body : ℕ → List ℕ) (on_call : ℕ → Callback → List ℕ) (watched : ℕ → Watched) where
  -- The functors that a turn runs: those that were pending, and those that it queues before.
  abbrev pub due : List ℕ → List Ran → LoopState → List ℕ
  due fs calls s =
      s.loop.pending_functors
      ++ (all_queued body fs ++ queued_by_all on_call watched s.wakeup_channel calls)

  after_scheduled_lem :
      (active : List (ℕ × Revents)) (p : Poller) (fs : List ℕ) (w : TimeWheel) (s : LoopState)
      → let (ran, s') = after_scheduled body on_call watched active p fs w s in
        let calls = calls_of on_call watched s.wakeup_channel active in
        (ran ≡ map scheduled fs ++ (calls ++ map functor (due fs calls s)))
        × (s'.loop.pending_functors ≡ all_queued body (due fs calls s))
        × IsAwake s'.loop
  after_scheduled_lem active p fs w s =
      let l1 = call_all body fs s.loop in
      let (p1, _, c1, _) = call_all-Queued body fs s.loop in
      let (e2, (p2, c2)) = handle_active-Grown on_call watched s.wakeup_channel active l1 in
      let l2 = (handle_active on_call watched s.wakeup_channel active l1).1 in
      let (e3, p3, a) = do_pending_functors_lem body l2 in
      let q : l2.pending_functors ≡ due fs (calls_of on_call watched s.wakeup_channel active) s =
        p2
        ∙ ap
            (λ l.
              l
              ++ queued_by_all on_call watched s.wakeup_channel
                  (calls_of on_call watched s.wakeup_channel active))
            p1
        ∙ append_assoc s.loop.pending_functors (all_queued body fs) _ in
      (λ i. map scheduled fs ++ (e2 i ++ map functor ((e3 ∙ q) i)), p3 ∙ ap (all_queued body) q, a)

  -- If the indices of the wheel are in range, the rounds given to it suffice and none of its tasks
  -- repeats: a turn at the time `now`, `k` ms after the turn before, returns. It runs the scheduled
  -- functions with a delay below `k`, by rising delay, then the callbacks of the channels that were
  -- waited for, in order, and then every functor that was pending before the turn or queued by those,
  -- once and in order. What these functors queue is pending afterwards, and has written a wakeup that is
  -- not read, so that the next poll returns at once. The other scheduled functions are due `k` ms
  -- earlier, and what was assumed of the wheel holds again.
  pub loop_turn_lem :
      (rounds : ℕ) (waited : Waited) (now : ℤ) (s : LoopState)
      → IsValid s.wheel
      → IsReady rounds s.wheel
      → let k = elapsed now s.wheel.start_time in
        let fs = runs 0 k s.wheel in
        let calls = calls_of on_call watched s.wakeup_channel (events_of waited) in
        (s' : LoopState) × (loop_turn body on_call watched rounds waited now s
          ≡ some (map scheduled fs ++ (calls ++ map functor (due fs calls s)), s'))
        × (s'.loop.pending_functors ≡ all_queued body (due fs calls s))
        × IsAwake s'.loop
        × IsValid s'.wheel
        × IsReady rounds s'.wheel
        × (s'.wheel.start_time ≡ now)
        × ((n : ℕ) → functions (pending n s'.wheel) ≡ functions (pending (n + k) s.wheel))
  unfolding loop_turn
  loop_turn_lem rounds waited now s v r =
      let (w', e, v', r', t, h) = take_all_timeout_lem rounds now s.wheel v r in
      let fs = runs 0 (elapsed now s.wheel.start_time) s.wheel in
      let p = (poll waited [] s.poller).1 in
      let (f, q, a) = after_scheduled_lem (events_of waited) p fs w' s in
      let s' = (after_scheduled body on_call watched (events_of waited) p fs w' s).1 in
      (
        s',
        ap
              (λ o. elim o [
                | none ↦ none
                | some (gs, w) ↦
                    some (after_scheduled body on_call watched (poll waited [] s.poller).0 p gs w s)
              ])
              e
            ∙ ap (λ es. some (after_scheduled body on_call watched es p fs w' s))
                (poll-events_of waited s.poller)
            ∙ ap (λ x. some (x, s')) f,
        q,
        a,
        v',
        r',
        t,
        h,
      )
