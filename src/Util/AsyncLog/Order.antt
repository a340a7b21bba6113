-- ===== src/Util/AsyncLog/Order.antt =====
-- No assertion of the writer fails, and what is logged is written in order.
use gd_rpc.Base.{
  ℕ, suc, ◌≡◌, subst, ◌≤◌, ◌<◌, refl, sym, ap, ◌∙◌, List, [], ◌∷◌, ◌++◌, false, Option, none, some,
  ltb, if◌then◌else◌, length, take, arith, Bool-cases, inl, inr, append-nil, append_assoc,
  length-append, length-take,
}
use gd_rpc.Util.AsyncLog.{
  Buffer, avail, buffer_append, AsyncLogging, next_or_new, append, Writer, taken, refill, too_many,
  to_write, all_bytes, pop_back, second_buffer, take_back, turn, overruns, Event, appends, turns,
  Running, step, and_run, run,
}

-- The writer's own buffers are empty. So is the next one, and while there is none the loggers have
-- filled a buffer.
abbrev pub IsNext : Option Buffer → List Buffer → Type 0
IsNext none bs = 1 ≤ length bs
IsNext (some b) bs = b ≡ []

abbrev pub IsReady : Running → Type 0
IsReady (w, a) = (w.new_buffer1 ≡ []) × (w.new_buffer2 ≡ []) × IsNext a.next_buffer a.buffers

-- What is logged and not written yet.
abbrev pub pending : Running → List ℕ
pending (w, a) = all_bytes (taken a)

pub all_bytes-append : (xs ys : List Buffer) → all_bytes (xs ++ ys) ≡ all_bytes xs ++ all_bytes ys
all_bytes-append [] ys = refl
all_bytes-append (x ∷ xs) ys =
    ap (λ l. x ++ l) (all_bytes-append xs ys) ∙ sym (append_assoc x (all_bytes xs) (all_bytes ys))

all_bytes-snoc : (xs : List Buffer) (b : Buffer) → all_bytes (xs ++ (b ∷ [])) ≡ all_bytes xs ++ b
all_bytes-snoc xs b = all_bytes-append xs (b ∷ []) ∙ ap (λ l. all_bytes xs ++ l) (append-nil b)

next_empty : (o : Option Buffer) (bs : List Buffer) → IsNext o bs → next_or_new o ≡ []
next_empty none bs h = refl
next_empty (some b) bs h = h

append-pending :
    (size : ℕ) (line : List ℕ) (w : Writer) (a : AsyncLogging)
    → length line < size
    → IsNext a.next_buffer a.buffers
    → pending (w, append size line a) ≡ pending (w, a) ++ line
unfolding append buffer_append
append-pending size line w a h n =
    elim (Bool-cases (ltb (length line) (avail size a.current_buffer))) [
      | inl t ↦
          rw (t, append, buffer_append)
            (all_bytes-snoc a.buffers (a.current_buffer ++ line)
              ∙ sym (append_assoc (all_bytes a.buffers) a.current_buffer line)
              ∙ ap (λ l. l ++ line) (sym (all_bytes-snoc a.buffers a.current_buffer)))
      | inr t ↦
          rw (t, append, buffer_append)
            (all_bytes-snoc (taken a) (buffer_append size (next_or_new a.next_buffer) line)
              ∙ ap (λ l. all_bytes (taken a) ++ l)
                  (ap (λ b. buffer_append size b line) (next_empty a.next_buffer a.buffers n)
                    ∙ ground arith))
    ]

append-IsNext :
    (size : ℕ) (line : List ℕ) (a : AsyncLogging)
    → IsNext a.next_buffer a.buffers
    → IsNext (append size line a).next_buffer (append size line a).buffers
unfolding append
append-IsNext size line a n = elim (Bool-cases (ltb (length line) (avail size a.current_buffer))) [
  | inl t ↦ rw (t, append) n
  | inr t ↦ rw (t, append) (ground (arith, length-append a.buffers (a.current_buffer ∷ [])))
]

pop_back_lem :
    (bs : List Buffer)
    → 1 ≤ length bs
    → (r : List Buffer) × (pop_back bs ≡ some r) × (suc (length r) ≡ length bs)
pop_back_lem [] h = absurd (omega arith)
pop_back_lem (b ∷ []) h = ([], refl, omega arith)
pop_back_lem (b ∷ c ∷ bs) h =
    let (r, e, l) = pop_back_lem (c ∷ bs) (omega arith) in (b ∷ r, rw e refl, omega arith)

refill_lem :
    (o : Option Buffer) (bs out : List Buffer)
    → IsNext o bs
    → 1 ≤ length out
    → (1 ≤ length bs → 2 ≤ length out)
    → (take_back (refill o []).1 out ≡ some (record { new_buffer1 = []; new_buffer2 = [] }))
      × ((refill o []).0 ≡ some [])
refill_lem (some b) bs out n h k =
    let (r, e, l) = pop_back_lem out h in (rw (e, take_back) refl, ap some n)
refill_lem none bs out n h k =
    let (r, e, l) = pop_back_lem out h in
    let (r', e', l') = pop_back_lem r (ground (arith, k n)) in
    (rw (e, take_back) (rw (e', second_buffer) refl), refl)

length-to_write :
    (a : AsyncLogging)
    → (1 ≤ length (to_write (taken a))) × (1 ≤ length a.buffers → 2 ≤ length (to_write (taken a)))
length-to_write a =
    ground (arith, length-append a.buffers (a.current_buffer ∷ []), length-take 2 (taken a))

abbrev fresh : Writer
fresh = record { new_buffer1 = []; new_buffer2 = [] }

-- A turn on ready buffers: no assertion fails, nothing stays pending and all is ready again.
turn_lem :
    (notice : List ℕ) (w : Writer) (a : AsyncLogging)
    → IsReady (w, a)
    → let (out, w', a') = turn notice w a in
      (out ≡ (if overruns a then notice ++ all_bytes (take 2 (taken a)) else pending (w, a)))
      × (w' ≡ some fresh)
      × (a' ≡ record { current_buffer = []; next_buffer = some []; buffers = [] })
unfolding turn overruns
turn_lem notice w a (n1, n2, n) =
    let (l1, l2) = length-to_write a in
    let (t, f) = refill_lem a.next_buffer a.buffers (to_write (taken a)) n l1 l2 in
    rw (n1, n2)
      (
        elim (Bool-cases (too_many (taken a))) [ inl m ↦ rw m refl | inr m ↦ rw m refl ],
        t,
        ap (λ o. record { current_buffer = []; next_buffer = o; buffers = [] }) f,
      )

-- The state of a run, if no assertion has failed and all is ready.
abbrev pub IsReadyAfter : Option Running → Type 0
IsReadyAfter none = ⊥
IsReadyAfter (some r) = IsReady r

step-IsReady : (size : ℕ) (e : Event) (r : Running) → IsReady r → IsReadyAfter (step size e r).1
unfolding step
step-IsReady size (appends line) (w, a) (n1, n2, n) = (n1, n2, append-IsNext size line a n)
step-IsReady size (turns notice) (w, a) i =
    let (_, e, e') = turn_lem notice w a i in
    subst (λ o. IsReadyAfter (elim o [ none ↦ none | some v ↦ some (v, (turn notice w a).2) ]))
      (sym e) (subst (λ b. IsReady (fresh, b)) (sym e') (refl, refl, refl))

and_run-IsReady :
    (out : List ℕ) (o : Option Running) (k : Running → List ℕ × Option Running)
    → ((r : Running) → IsReady r → IsReadyAfter (k r).1)
    → IsReadyAfter o
    → IsReadyAfter (and_run out o k).1
and_run-IsReady out none k f h = h
and_run-IsReady out (some r) k f h = f r h

-- From ready buffers, whatever is logged, and however the writer's turns fall between, no
-- assertion of the writer fails: it always gets back the two buffers that it gave away, and they
-- are empty.
pub run-IsReady :
    (size : ℕ) (es : List Event) (r : Running) → IsReady r → IsReadyAfter (run size es r).1
unfolding run
run-IsReady size [] r i = i
run-IsReady size (e ∷ es) r i =
    and_run-IsReady (step size e r).0 (step size e r).1 (run size es) (run-IsReady size es)
      (step-IsReady size e r i)

-- Every line is shorter than a buffer, and no turn finds more than 25 buffers.
abbrev pub AndCalm : Option Running → (Running → Type 0) → Type 0
AndCalm none k = ⊥
AndCalm (some r) k = k r

abbrev pub IsCalm : ℕ → List Event → Running → Type 0
IsCalm size [] r = size ≡ size
IsCalm size (appends line ∷ es) r =
    (length line < size) × AndCalm (step size (appends line) r).1 (IsCalm size es)
IsCalm size (turns notice ∷ es) r =
    (overruns r.1 ≡ false) × AndCalm (step size (turns notice) r).1 (IsCalm size es)

abbrev pub logged : List Event → List ℕ
logged [] = []
logged (appends line ∷ es) = line ++ logged es
logged (turns notice ∷ es) = logged es

abbrev pub pending_after : Option Running → List ℕ
pending_after none = []
pending_after (some r) = pending r

abbrev drained : AsyncLogging
drained = record { current_buffer = []; next_buffer = some []; buffers = [] }

step-turns :
    (size : ℕ) (notice : List ℕ) (w : Writer) (a : AsyncLogging)
    → IsReady (w, a)
    → overruns a ≡ false
    → step size (turns notice) (w, a) ≡ (pending (w, a), some (fresh, drained))
unfolding step
step-turns size notice w a i o =
    let (e1, e2, e3) = turn_lem notice w a i in
    ap (λ t. (t.0, elim t.1 [ none ↦ none | some v ↦ some (v, t.2) ]))
      (triple (turn notice w a)
        (e1 ∙ ap (λ b. if b then notice ++ all_bytes (take 2 (taken a)) else pending (w, a)) o) e2
        e3)
  where
    triple :
        (t : List ℕ × Option Writer × AsyncLogging) {x : List ℕ} {y : Option Writer}
        {z : AsyncLogging}
        → t.0 ≡ x
        → t.1 ≡ y
        → t.2 ≡ z
        → t ≡ (x, y, z)
    triple t e1 e2 e3 = rw (sym e1, sym e2, sym e3) refl

-- From ready buffers, while every line is shorter than a buffer and no turn finds more than 25
-- buffers, what is written and then what is still pending are what was pending and then the
-- lines, whole and in the order in which they were logged.
pub run-order :
    (size : ℕ) (es : List Event) (r : Running)
    → IsReady r
    → IsCalm size es r
    → let (out, r') = run size es r in out ++ pending_after r' ≡ pending r ++ logged es
unfolding run step
run-order size [] r i c = sym (append-nil (pending r))
run-order size (appends line ∷ es) (w, a) (n1, n2, n) (h, c) =
    run-order size es (w, append size line a) (n1, n2, append-IsNext size line a n) c
    ∙ ap (λ l. l ++ logged es) (append-pending size line w a h n)
    ∙ append_assoc (pending (w, a)) line (logged es)
run-order size (turns notice ∷ es) (w, a) i (h, c) =
    let e = step-turns size notice w a i h in
    subst
      (λ t.
        let (out, r') = and_run t.0 t.1 (run size es) in
        out ++ pending_after r' ≡ pending (w, a) ++ logged es)
      (sym e)
      (append_assoc (pending (w, a)) _ _
        ∙ ap (λ l. pending (w, a) ++ l)
            (run-order size es (fresh, drained) (refl, refl, refl)
              (subst (λ t. AndCalm t.1 (IsCalm size es)) e c)))
