-- ===== src/Util/TimeWheel/Due.antt =====
-- The tasks by the number of ticks until they run.
use gd_rpc.Base.{
  ℕ, zero, suc, ◌+◌, ◌/◌, ◌%◌, ◌≤◌, ◌<◌, ◌≡◌, refl, ap, ◌∙◌, List, [], ◌∷◌, ◌++◌, some, arith, ◌==◌,
  if◌then◌else◌, length, set, map, Bool, false, Bool-cases, inl, inr, ◌&&◌, select, ltb, append-nil,
  append_assoc, length-set,
}
use native.Mathlib.Nat.{mod-lt}
use gd_rpc.Base.Int.{ℤ, pos}
use gd_rpc.Util.TimeWheel.{
  Task, TimeWheel, slot_at, slot_of, new_task, add_task, clear, del_task, exec, repeats, turn,
  tick_slot, tick,
}
use gd_rpc.Util.TimeWheel.Rounds.{next_mod, slot_inside, slot_round, slot_injective, same_delay}
use gd_rpc.Util.TimeWheel.Slots.{slot_at-set, slot_at-map, slot_at-push_back, select-if}

pub record IsValid (w : TimeWheel) : Type 0 where
  pub some_slots : 0 < w.slot_len
  pub all_slots : length w.slots ≡ w.slot_len
  pub in_range : w.current < w.slot_len

-- The tasks that run at the tick after `n` others, in the order in which they run.
unfoldable pub pending : ℕ → TimeWheel → List Task
pending n w = select (λ t. t.rotations == n / w.slot_len) (slot_at w.slots (slot_of w n))

-- Each function of the tasks, in order.
abbrev pub functions : List Task → List ℕ
functions [] = []
functions (t ∷ ts) = exec t ++ functions ts

-- No task of the list is filed again when it has run.
abbrev pub Once : List Task → Type 0
Once [] = Unit {0}
Once (t ∷ ts) = (repeats t ≡ false) × Once ts

-- No task of the wheel is filed again, and the rounds suffice for each slot.
abbrev pub IsReady : ℕ → TimeWheel → Type 0
IsReady rounds w = (i : ℕ) → Once (slot_at w.slots i) × (length (slot_at w.slots i) < rounds)

is_due : Task → Bool
is_due t = t.rotations == 0

waiting : List Task → List Task
waiting ts = map turn (select (λ t. ltb 0 t.rotations) ts)

-- The loop over the current slot runs the due tasks and keeps the others with one rotation less.
tick_slot_lem :
    (rounds : ℕ) (w : TimeWheel) (kept todo : List Task)
    → length todo < rounds
    → Once todo
    → tick_slot rounds w kept todo
      ≡ some (
        functions (select is_due todo),
        record w { slots = set w.slots w.current (kept ++ waiting todo) },
      )
unfolding tick_slot waiting is_due
tick_slot_lem zero w kept todo h o = absurd (omega arith)
tick_slot_lem (suc n) w kept [] h o = rw (append-nil kept)
tick_slot_lem (suc n) w kept (t ∷ todo) h o = ground (
  arith,
  tick_slot_lem n w (kept ++ (turn t ∷ [])) todo,
  tick_slot_lem n w kept todo,
  append_assoc kept (turn t ∷ []) (waiting todo),
)

select-waiting :
    (k : ℕ) (ts : List Task)
    → functions (select (λ t. t.rotations == k) (waiting ts))
      ≡ functions (select (λ t. t.rotations == k + 1) ts)
unfolding waiting
select-waiting k [] = refl
select-waiting k (t ∷ ts) = ground (arith, select-waiting k ts)

-- The functions of slot `i` that have `k` rotations left.
abbrev pick : ℕ → ℕ → List (List Task) → List ℕ
pick k i ss = functions (select (λ t. t.rotations == k) (slot_at ss i))

pick-waiting :
    (ss : List (List Task)) (c k i : ℕ)
    → c < length ss
    → pick k i (set ss c (waiting (slot_at ss c)))
      ≡ (if c == i then pick (k + 1) i ss else pick k i ss)
pick-waiting ss c k i h =
    ap (λ ts. functions (select (λ t. t.rotations == k) ts)) (slot_at-set ss c i _ h)
    ∙ ground (arith, select-waiting k (slot_at ss c))

module _ (w : TimeWheel) (v : IsValid w) where
  -- The wheel that `tick` leaves.
  ticked : TimeWheel
  ticked = record w {
    slots = set w.slots w.current (waiting (slot_at w.slots w.current));
    current = (w.current + 1) % w.slot_len;
  }

  ticked-IsValid : IsValid ticked
  unfolding ticked
  ticked-IsValid =
      let l = length-set w.slots w.current (waiting (slot_at w.slots w.current)) in
      record {
        some_slots = v.some_slots;
        all_slots = l ∙ v.all_slots;
        in_range = grind (arith, v.some_slots);
      }

  functions-ticked : (n : ℕ) → functions (pending n ticked) ≡ functions (pending (n + 1) w)
  unfolding pending ticked
  functions-ticked n = elim (next_mod n w.slot_len v.some_slots) [
    | inl (m, d, h) ↦
        let e = slot_inside w.current (n % w.slot_len) w.slot_len v.in_range h in
        rw (m, d, e.0)
          (pick-waiting w.slots w.current (n / w.slot_len) _ fits ∙ ground (arith, e.1))
    | inr (m, d, h) ↦
        let e = slot_round w.current (n % w.slot_len) w.slot_len v.in_range h in
        rw (m, d, e.0, e.1)
          (pick-waiting w.slots w.current (n / w.slot_len) w.current fits ∙ ground arith)
  ]
    where
      fits : w.current < length w.slots
      fits = rw v.all_slots v.in_range

pending_zero : (w : TimeWheel) → IsValid w → pending 0 w ≡ select is_due (slot_at w.slots w.current)
unfolding pending is_due
pending_zero w v =
    let d : 0 / w.slot_len ≡ 0 = grind (arith, v.some_slots) in
    let i : (w.current + 0 % w.slot_len) % w.slot_len ≡ w.current =
      grind (arith, v.some_slots, v.in_range) in
    rw (d, i)

waiting-Once : (ts : List Task) → Once ts → Once (waiting ts)
unfolding waiting
waiting-Once [] o = tt
waiting-Once (t ∷ ts) o = elim (Bool-cases (ltb 0 t.rotations)) [
  | inl e ↦ rw e (o.0, waiting-Once ts o.1)
  | inr e ↦ rw e (waiting-Once ts o.1)
]

length-waiting : (ts : List Task) → length (waiting ts) ≤ length ts
unfolding waiting
length-waiting [] = omega arith
length-waiting (t ∷ ts) = elim (Bool-cases (ltb 0 t.rotations)) [
  | inl e ↦ rw e (omega (arith, length-waiting ts))
  | inr e ↦ rw e (omega (arith, length-waiting ts))
]

ticked-IsReady :
    (rounds : ℕ) (w : TimeWheel) (v : IsValid w) → IsReady rounds w → IsReady rounds (ticked w v)
unfolding ticked
ticked-IsReady rounds w v r i =
    rw
      (slot_at-set w.slots w.current i (waiting (slot_at w.slots w.current))
        (rw v.all_slots v.in_range))
      (elim (Bool-cases (w.current == i)) [
        | inl e ↦ rw e (
          waiting-Once (slot_at w.slots w.current) (r w.current).0,
          omega (arith, length-waiting (slot_at w.slots w.current), (r w.current).1),
        )
        | inr e ↦ rw e (r i)
      ])

-- With rounds enough for the tasks of the current slot, none of which repeats, a tick runs the
-- functions that are due, and every other waits one tick less.
pub tick_lem :
    (rounds : ℕ) (w : TimeWheel)
    → IsValid w
    → IsReady rounds w
    → (w' : TimeWheel) × (tick rounds w ≡ some (functions (pending 0 w), w'))
      × IsValid w'
      × IsReady rounds w'
      × ((n : ℕ) → functions (pending n w') ≡ functions (pending (n + 1) w))
unfolding tick ticked
tick_lem rounds w v r =
    (ticked w v, step, ticked-IsValid w v, ticked-IsReady rounds w v r, functions-ticked w v)
  where
    step : tick rounds w ≡ some (functions (pending 0 w), ticked w v)
    step = rw (
      pending_zero w v,
      tick_slot_lem rounds w [] (slot_at w.slots w.current) (r w.current).1 (r w.current).0,
      tick,
    )

-- `addTask` files the function under its delay, behind those of the same delay, and moves no other.
pub pending-add_task :
    (timeout f : ℕ) (garbage : ℤ) (w : TimeWheel) (n : ℕ)
    → IsValid w
    → pending n (add_task (pos timeout) f garbage w).1 ≡ (
        if timeout == n
        then pending n w ++ (new_task w.next_id (timeout / w.slot_len) timeout garbage f ∷ [])
        else pending n w)
unfolding pending add_task
pending-add_task timeout f garbage w n v =
    ap (select (λ t. t.rotations == n / w.slot_len))
      (slot_at-push_back w.slots (slot_of w timeout) (slot_of w n) task fits)
    ∙ select-if (λ t. t.rotations == n / w.slot_len) (slot_at w.slots (slot_of w n)) task
        (slot_of w timeout == slot_of w n)
    ∙ ap (λ (b : Bool). if b then pending n w ++ (task ∷ []) else pending n w) test
  where
    task : Task
    task = new_task w.next_id (timeout / w.slot_len) timeout garbage f

    fits : slot_of w timeout < length w.slots
    fits = rw v.all_slots (grind (arith, v.some_slots))

    apart : slot_of w timeout ≡ slot_of w n → timeout / w.slot_len ≡ n / w.slot_len → timeout ≡ n
    apart e d =
        same_delay timeout n w.slot_len v.some_slots
          (slot_injective w.current (timeout % w.slot_len) (n % w.slot_len) w.slot_len v.in_range
            (mod-lt timeout v.some_slots) (mod-lt n v.some_slots) e)
          d

    test :
        ((slot_of w timeout == slot_of w n) && (timeout / w.slot_len == n / w.slot_len))
        ≡ (timeout == n)
    test = ground (arith, apart)

-- `delTask` takes the function out of the task of that identity, and moves no task.
pub pending-del_task :
    (id n : ℕ) (w : TimeWheel) → pending n (del_task id w) ≡ map (clear id) (pending n w)
unfolding pending del_task
pending-del_task id n w =
    ap (select (λ t. t.rotations == n / w.slot_len)) (slot_at-map (clear id) w.slots (slot_of w n))
    ∙ cleared (slot_at w.slots (slot_of w n))
  where
    cleared :
        (ts : List Task)
        → select (λ t. t.rotations == n / w.slot_len) (map (clear id) ts)
          ≡ map (clear id) (select (λ t. t.rotations == n / w.slot_len) ts)
    cleared [] = refl
    cleared (t ∷ ts) = ground (arith, cleared ts)

-- The time that the wheel was told last moves no task.
pub start_time-IsValid :
    (now : ℤ) {w : TimeWheel} → IsValid w → IsValid (record w { start_time = now })
start_time-IsValid now v = omega (arith, v.all_slots)

pub pending-start_time :
    (n : ℕ) (now : ℤ) (w : TimeWheel) → pending n (record w { start_time = now }) ≡ pending n w
unfolding pending
pending-start_time n now w = refl
