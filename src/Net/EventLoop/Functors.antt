-- ===== src/Net/EventLoop/Functors.antt =====
-- Every functor that is queued runs, once and in order, and no wakeup is lost.
use gd_rpc.Base.{
  ℕ, ◌≡◌, ◌≤◌, ◌+◌, refl, sym, ap, ◌∙◌, List, [], ◌∷◌, ◌++◌, Bool, true, false, if◌then◌else◌, ◌&&◌,
  not, arith, length, length-append, append-nil, append_assoc, Bool-cases, inl, inr,
}
use gd_rpc.Net.EventLoop.{
  EventLoop, wakeup, quit_loop, queue_in_loop, queue_all, handle_read, call_all,
  do_pending_functors, Event, queues, quits, loops, turns, turn, turn_while, start_loop, step, run,
}

-- All that the functors of a list queue, in order.
abbrev pub all_queued : (ℕ → List ℕ) → List ℕ → List ℕ
all_queued body [] = []
all_queued body (f ∷ fs) = body f ++ all_queued body fs

-- What queueing a list in the loop's own thread does.
abbrev pub Queued : List ℕ → EventLoop → EventLoop → Type 0
Queued fs l l' =
    (l'.pending_functors ≡ l.pending_functors ++ fs)
    × (l'.wakeups ≡ (if l.calling_pending_functors then l.wakeups + length fs else l.wakeups))
    × (l'.calling_pending_functors ≡ l.calling_pending_functors)
    × (l'.quit ≡ l.quit)

pub Queued-nil : (l : EventLoop) → Queued [] l l
Queued-nil l = (sym (append-nil _), ground arith, refl, refl)

pub Queued-append :
    (fs gs : List ℕ) (l1 l2 l3 : EventLoop)
    → Queued fs l1 l2
    → Queued gs l2 l3
    → Queued (fs ++ gs) l1 l3
Queued-append fs gs l1 l2 l3 (p, w, c, q) (p', w', c', q') = (
  p' ∙ ap (λ l. l ++ gs) p ∙ append_assoc l1.pending_functors fs gs,
  ground (arith, w, w', c, length-append fs gs),
  c' ∙ c,
  q' ∙ q,
)

queue_in_loop-Queued : (f : ℕ) (l : EventLoop) → Queued (f ∷ []) l (queue_in_loop true f l)
unfolding queue_in_loop wakeup
queue_in_loop-Queued f l = elim (Bool-cases l.calling_pending_functors) [
  | inl t ↦ rw (t, queue_in_loop, wakeup) (refl, omega arith, refl, refl)
  | inr t ↦ rw (t, queue_in_loop) (refl, refl, refl, refl)
]

pub queue_all-Queued : (fs : List ℕ) (l : EventLoop) → Queued fs l (queue_all fs l)
queue_all-Queued [] l = Queued-nil l
queue_all-Queued (f ∷ fs) l =
    let l1 = queue_in_loop true f l in
    Queued-append (f ∷ []) fs l l1 (queue_all fs l1) (queue_in_loop-Queued f l)
      (queue_all-Queued fs l1)

pub call_all-Queued :
    (body : ℕ → List ℕ) (fs : List ℕ) (l : EventLoop)
    → Queued (all_queued body fs) l (call_all body fs l)
call_all-Queued body [] l = Queued-nil l
call_all-Queued body (f ∷ fs) l =
    let l1 = queue_all (body f) l in
    Queued-append (body f) (all_queued body fs) l l1 (call_all body fs l1)
      (queue_all-Queued (body f) l) (call_all-Queued body fs l1)

-- Between the turns of a loop: every pending functor has written a wakeup that is not read yet.
abbrev pub IsAwake : EventLoop → Type 0
IsAwake l = (length l.pending_functors ≤ l.wakeups) × (l.calling_pending_functors ≡ false)

-- What an event queues, in order.
abbrev pub queued_by : (ℕ → List ℕ) → Event → EventLoop → List ℕ
queued_by body (queues f) l = f ∷ []
queued_by body quits l = []
queued_by body loops l = []
queued_by body (turns queued) l =
    if l.looping && not l.quit then queued ++ all_queued body (l.pending_functors ++ queued) else []

pub do_pending_functors_lem :
    (body : ℕ → List ℕ) (l : EventLoop)
    → let (ran, l') = do_pending_functors body l in
      (ran ≡ l.pending_functors)
      × (l'.pending_functors ≡ all_queued body l.pending_functors)
      × IsAwake l'
unfolding do_pending_functors
do_pending_functors_lem body l =
    let swapped = record l { pending_functors = []; calling_pending_functors = true } in
    let (p, w, _, _) = call_all-Queued body l.pending_functors swapped in
    (refl, p, (ground (arith, p, w), refl))

turn_lem :
    (body : ℕ → List ℕ) (queued : List ℕ) (l : EventLoop)
    → let (ran, l') = turn body queued l in
      (ran ≡ l.pending_functors ++ queued)
      × (l'.pending_functors ≡ all_queued body (l.pending_functors ++ queued))
      × IsAwake l'
unfolding handle_read
turn_lem body queued l =
    let l1 = queue_all queued (handle_read l) in
    let (p1, _, _, _) = queue_all-Queued queued (handle_read l) in
    let (e, p2, a) = do_pending_functors_lem body l1 in (e ∙ p1, p2 ∙ ap (all_queued body) p1, a)

turn_while_lem :
    (looping quit : Bool) (body : ℕ → List ℕ) (queued : List ℕ) (l : EventLoop)
    → IsAwake l
    → let (ran, l') = turn_while looping quit body queued l in
      (ran ++ l'.pending_functors
        ≡ l.pending_functors
          ++ (if looping && not quit
              then queued ++ all_queued body (l.pending_functors ++ queued)
              else []))
      × IsAwake l'
turn_while_lem false quit body queued l a = (sym (append-nil _), a)
turn_while_lem true true body queued l a = (sym (append-nil _), a)
turn_while_lem true false body queued l (w, c) =
    let (e1, e2, a) = turn_lem body queued l in
    (
      ap (λ x. x ++ (turn body queued l).1.pending_functors) e1
          ∙ ap (λ x. (l.pending_functors ++ queued) ++ x) e2
          ∙ append_assoc l.pending_functors queued _,
      a,
    )

step_lem :
    (body : ℕ → List ℕ) (e : Event) (l : EventLoop)
    → IsAwake l
    → let (ran, l') = step body e l in
      (ran ++ l'.pending_functors ≡ l.pending_functors ++ queued_by body e l) × IsAwake l'
unfolding step queue_in_loop quit_loop start_loop wakeup
step_lem body (queues f) l (w, c) =
    (refl, (ground (arith, w, length-append l.pending_functors (f ∷ [])), c))
step_lem body quits l (w, c) = (sym (append-nil _), (omega arith, c))
step_lem body loops l a = (sym (append-nil _), a)
step_lem body (turns queued) l a = turn_while_lem l.looping l.quit body queued l a

-- All that the events of a run queue, in order.
abbrev pub all_queued_by : (ℕ → List ℕ) → List Event → EventLoop → List ℕ
all_queued_by body [] l = []
all_queued_by body (e ∷ es) l = queued_by body e l ++ all_queued_by body es (step body e l).1

-- From a loop in which every pending functor has written a wakeup, whatever other threads and the
-- loop's own callbacks queue: the functors that have run and then those that are pending are
-- those that were pending and then those that were queued, in order. Afterwards too every pending
-- functor has written a wakeup that is not read, so that the next poll returns at once.
pub run_lem :
    (body : ℕ → List ℕ) (es : List Event) (l : EventLoop)
    → IsAwake l
    → let (ran, l') = run body es l in
      (ran ++ l'.pending_functors ≡ l.pending_functors ++ all_queued_by body es l) × IsAwake l'
unfolding run
run_lem body [] l a = (sym (append-nil _), a)
run_lem body (e ∷ es) l a =
    let (ran, l1) = step body e l in
    let (q, a1) = step_lem body e l a in
    let (q2, a2) = run_lem body es l1 a1 in
    (
      append_assoc ran _ _
          ∙ ap (λ x. ran ++ x) q2
          ∙ sym (append_assoc ran l1.pending_functors _)
          ∙ ap (λ x. x ++ all_queued_by body es l1) q
          ∙ append_assoc l.pending_functors (queued_by body e l) _,
      a2,
    )
