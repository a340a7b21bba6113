-- ===== src/Util/TimeWheel/Cancelling.antt =====
-- A task that is removed before its time.
use gd_rpc.Base.{
  ℕ, zero, suc, ◌≡◌, ◌<◌, ◌≤◌, ◌+◌, ◌/◌, refl, sym, ap, ◌∙◌, List, [], ◌∷◌, ◌++◌, Bool, ◌==◌, map,
  select, length, arith, Bool-cases, inl, inr,
}
use gd_rpc.Base.Int.{ℤ, pos}
use gd_rpc.Util.TimeWheel.{
  Task, TimeWheel, slot_at, slot_of, new_task, add_task, clear, del_task, exec, repeats,
}
use gd_rpc.Util.TimeWheel.Slots.{slot_at-map}
use gd_rpc.Util.TimeWheel.Due.{
  IsValid, IsReady, Once, pending, functions, pending-add_task, pending-del_task,
}
use gd_rpc.Util.TimeWheel.Ticks.{runs}

abbrev pub AllBelow : ℕ → List Task → Type 0
AllBelow n [] = 0 ≤ 0
AllBelow n (t ∷ ts) = (t.id < n) × AllBelow n ts

-- No task of the wheel has an identity that is still to be given.
abbrev pub HasOldIds : TimeWheel → Type 0
HasOldIds w = (i : ℕ) → AllBelow w.next_id (slot_at w.slots i)

AllBelow-select :
    (n : ℕ) (p : Task → Bool) (ts : List Task) → AllBelow n ts → AllBelow n (select p ts)
AllBelow-select n p [] h = h
AllBelow-select n p (t ∷ ts) (h, hs) = elim (Bool-cases (p t)) [
  | inl e ↦ rw e (h, AllBelow-select n p ts hs)
  | inr e ↦ rw e (AllBelow-select n p ts hs)
]

clear-below : (n : ℕ) (t : Task) → t.id < n → clear n t ≡ t
unfolding clear
clear-below n t h = ground (arith, h)

map-clear : (n : ℕ) (ts : List Task) → AllBelow n ts → map (clear n) ts ≡ ts
map-clear n [] h = refl
map-clear n (t ∷ ts) (h, hs) = λ i. clear-below n t h i ∷ map-clear n ts hs i

exec-clear : (t : Task) → exec (clear t.id t) ≡ []
unfolding clear
exec-clear t = ground arith

functions-cleared :
    (n : ℕ) (ts : List Task) (t : Task)
    → AllBelow n ts
    → t.id ≡ n
    → functions (map (clear n) (ts ++ (t ∷ []))) ≡ functions ts
functions-cleared n [] t h e =
    ap (λ m. exec (clear m t) ++ []) (sym e) ∙ ap (λ l. l ++ []) (exec-clear t)
functions-cleared n (u ∷ ts) t (h, hs) e =
    λ i. exec (clear-below n u h i) ++ functions-cleared n ts t hs e i

length-map : (g : Task → Task) (ts : List Task) → length (map g ts) ≡ length ts
length-map g [] = refl
length-map g (t ∷ ts) = ap suc (length-map g ts)

same_length : (g : Task → Task) (ss : List (List Task)) → length (map (map g) ss) ≡ length ss
same_length g [] = refl
same_length g (s ∷ ss) = ap suc (same_length g ss)

repeats-clear : (n : ℕ) (t : Task) → repeats (clear n t) ≡ repeats t
unfolding clear
repeats-clear n t = ground arith

Once-clear : (n : ℕ) (ts : List Task) → Once ts → Once (map (clear n) ts)
Once-clear n [] o = o
Once-clear n (t ∷ ts) (h, o) = (repeats-clear n t ∙ h, Once-clear n ts o)

pub del_task-IsValid : (id : ℕ) (w : TimeWheel) → IsValid w → IsValid (del_task id w)
unfolding del_task
del_task-IsValid id w v = record {
  some_slots = v.some_slots;
  all_slots = same_length (clear id) w.slots ∙ v.all_slots;
  in_range = v.in_range;
}

pub del_task-IsReady :
    (id rounds : ℕ) (w : TimeWheel) → IsReady rounds w → IsReady rounds (del_task id w)
unfolding del_task
del_task-IsReady id rounds w r i =
    rw (slot_at-map (clear id) w.slots i, length-map (clear id) (slot_at w.slots i))
      (Once-clear id (slot_at w.slots i) (r i).0, (r i).1)

-- A task that is filed and then removed leaves the functions as they were.
functions-cancelled :
    (timeout f : ℕ) (garbage : ℤ) (w : TimeWheel) (n : ℕ)
    → IsValid w
    → HasOldIds w
    → functions (pending n (del_task w.next_id (add_task (pos timeout) f garbage w).1))
      ≡ functions (pending n w)
unfolding pending
functions-cancelled timeout f garbage w n v h =
    let task = new_task w.next_id (timeout / w.slot_len) timeout garbage f in
    let old =
      AllBelow-select w.next_id (λ t. t.rotations == n / w.slot_len) (slot_at w.slots (slot_of w n))
        (h (slot_of w n)) in
    ap functions (pending-del_task w.next_id n (add_task (pos timeout) f garbage w).1)
    ∙ ap (λ ts. functions (map (clear w.next_id) ts)) (pending-add_task timeout f garbage w n v)
    ∙ elim (Bool-cases (timeout == n)) [
      | inl t ↦ rw t (functions-cleared w.next_id (pending n w) task old refl)
      | inr t ↦ rw t (ap functions (map-clear w.next_id (pending n w) old))
    ]

pub runs-cancelled :
    (timeout f : ℕ) (garbage : ℤ) (w : TimeWheel) (i k : ℕ)
    → IsValid w
    → HasOldIds w
    → runs i k (del_task w.next_id (add_task (pos timeout) f garbage w).1) ≡ runs i k w
runs-cancelled timeout f garbage w i zero v h = refl
runs-cancelled timeout f garbage w i (suc k) v h = λ j.
    functions-cancelled timeout f garbage w i v h j
    ++ runs-cancelled timeout f garbage w (i + 1) k v h j
