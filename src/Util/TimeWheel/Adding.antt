-- ===== src/Util/TimeWheel/Adding.antt =====
-- What `addTask` leaves of a wheel, and what it then runs.
use gd_rpc.Base.{
  ℕ, zero, suc, ◌≡◌, ◌<◌, ◌+◌, ◌/◌, refl, sym, ap, ◌∙◌, List, [], ◌∷◌, ◌++◌, false, ◌&&◌, ◌==◌, ltb,
  leb, if◌then◌else◌, length, length-set, length-append, arith, Bool-cases, inl, inr, append_assoc,
}
use gd_rpc.Base.Int.{ℤ, pos}
use gd_rpc.Util.TimeWheel.{
  Task, TimeWheel, slot_at, slot_of, push_back, new_task, add_task, repeats, exec,
}
use gd_rpc.Util.TimeWheel.Slots.{slot_at-push_back}
use gd_rpc.Util.TimeWheel.Due.{IsValid, IsReady, Once, pending, functions, pending-add_task}
use gd_rpc.Util.TimeWheel.Ticks.{runs}

-- How often a function stands in a list.
abbrev pub times : ℕ → List ℕ → ℕ
times f [] = 0
times f (g ∷ gs) = if f == g then suc (times f gs) else times f gs

times-append : (f : ℕ) (xs ys : List ℕ) → times f (xs ++ ys) ≡ times f xs + times f ys
times-append f [] ys = omega arith
times-append f (x ∷ xs) ys = ground (arith, times-append f xs ys)

functions-append : (ts us : List Task) → functions (ts ++ us) ≡ functions ts ++ functions us
functions-append [] us = refl
functions-append (t ∷ ts) us =
    ap (λ l. exec t ++ l) (functions-append ts us)
    ∙ sym (append_assoc (exec t) (functions ts) (functions us))

Once-snoc : (ts : List Task) (t : Task) → Once ts → repeats t ≡ false → Once (ts ++ (t ∷ []))
Once-snoc [] t o e = (e, tt)
Once-snoc (u ∷ ts) t (h, o) e = (h, Once-snoc ts t o e)

module _ (timeout f : ℕ) (garbage : ℤ) (w : TimeWheel) (v : IsValid w) where
  pub add_task-IsValid : IsValid (add_task (pos timeout) f garbage w).1
  unfolding add_task push_back
  add_task-IsValid = record {
    some_slots = v.some_slots;
    all_slots = length-set w.slots (slot_of w timeout) _ ∙ v.all_slots;
    in_range = v.in_range;
  }

  -- One round more is enough for the slot that has a task more.
  pub add_task-IsReady :
      (rounds : ℕ)
      → IsReady rounds w
      → repeats (new_task w.next_id (timeout / w.slot_len) timeout garbage f) ≡ false
      → IsReady (suc rounds) (add_task (pos timeout) f garbage w).1
  unfolding add_task
  add_task-IsReady rounds r e i =
      rw (slot_at-push_back w.slots (slot_of w timeout) i task fits)
        (elim (Bool-cases (slot_of w timeout == i)) [
          | inl t ↦ rw t (
            Once-snoc (slot_at w.slots i) task (r i).0 e,
            omega (arith, length-append (slot_at w.slots i) (task ∷ []), (r i).1),
          )
          | inr t ↦ rw t ((r i).0, omega (arith, (r i).1))
        ])
    where
      task : Task
      task = new_task w.next_id (timeout / w.slot_len) timeout garbage f

      fits : slot_of w timeout < length w.slots
      fits = rw v.all_slots (grind (arith, v.some_slots))

  times-pending :
      (g n : ℕ)
      → times g (functions (pending n (add_task (pos timeout) f garbage w).1))
        ≡ times g (functions (pending n w)) + (if timeout == n && g == f then 1 else 0)
  times-pending g n =
      ap (λ ts. times g (functions ts)) (pending-add_task timeout f garbage w n v)
      ∙ elim (Bool-cases (timeout == n)) [
        | inl t ↦ rw t (
            ap (times g) (
              functions-append (pending n w)
                (new_task w.next_id (timeout / w.slot_len) timeout garbage f ∷ []))
            ∙ times-append g (functions (pending n w)) (f ∷ []))
        | inr t ↦ rw t (omega arith)
      ]

  -- Among the functions with a delay of `i` up to `i + k - 1` there is one more if its delay is.
  pub times-runs :
      (g i k : ℕ)
      → times g (runs i k (add_task (pos timeout) f garbage w).1)
        ≡ times g (runs i k w) + (if (leb i timeout && ltb timeout (i + k)) && g == f then 1 else 0)
  times-runs g i zero = ground arith
  times-runs g i (suc k) =
      times-append g (functions (pending i (add_task (pos timeout) f garbage w).1)) _
      ∙ (λ j. times-pending g i j + times-runs g (i + 1) k j)
      ∙ ground (arith, times-append g (functions (pending i w)) (runs (i + 1) k w))
