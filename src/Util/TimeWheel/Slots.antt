-- ===== src/Util/TimeWheel/Slots.antt =====
-- The slots of the wheel as a function of the index.
use gd_rpc.Base.{
  ℕ, zero, suc, ◌<◌, ◌≡◌, refl, ◌∙◌, List, [], ◌∷◌, ◌++◌, arith, ◌==◌, if◌then◌else◌, length, set,
  map, Bool, true, false, select, ◌&&◌, append-nil,
}
use gd_rpc.Util.TimeWheel.{Task, slot_at, push_back}

pub slot_at-set :
    (ss : List (List Task)) (i j : ℕ) (ts : List Task)
    → i < length ss
    → slot_at (set ss i ts) j ≡ (if i == j then ts else slot_at ss j)
slot_at-set [] i j ts h = absurd (omega arith)
slot_at-set (x ∷ ss) zero zero ts h = ground arith
slot_at-set (x ∷ ss) zero (suc j) ts h = ground arith
slot_at-set (x ∷ ss) (suc i) zero ts h = ground arith
slot_at-set (x ∷ ss) (suc i) (suc j) ts h = ground (arith, slot_at-set ss i j ts)

pub slot_at-map :
    (f : Task → Task) (ss : List (List Task)) (i : ℕ)
    → slot_at (map (map f) ss) i ≡ map f (slot_at ss i)
slot_at-map f [] i = refl
slot_at-map f (x ∷ ss) zero = refl
slot_at-map f (x ∷ ss) (suc i) = slot_at-map f ss i

pub slot_at-push_back :
    (ss : List (List Task)) (i j : ℕ) (t : Task)
    → i < length ss
    → slot_at (push_back i t ss) j ≡ (if i == j then slot_at ss j ++ (t ∷ []) else slot_at ss j)
unfolding push_back
slot_at-push_back ss i j t h = slot_at-set ss i j (slot_at ss i ++ (t ∷ [])) h ∙ ground arith

module _ {ℓ} {A : Type ℓ} where
  pub select-append :
      (p : A → Bool) (xs ys : List A) → select p (xs ++ ys) ≡ select p xs ++ select p ys
  select-append p [] ys = refl
  select-append p (x ∷ xs) ys = ground (arith, select-append p xs ys)

  pub select-if :
      (p : A → Bool) (xs : List A) (x : A) (b : Bool)
      → select p (if b then xs ++ (x ∷ []) else xs)
        ≡ (if b && p x then select p xs ++ (x ∷ []) else select p xs)
  select-if p xs x true = select-append p xs (x ∷ []) ∙ one (p x)
    where
      one :
          (c : Bool)
          → select p xs ++ (if c then x ∷ [] else [])
            ≡ (if c then select p xs ++ (x ∷ []) else select p xs)
      one true = refl
      one false = append-nil (select p xs)
  select-if p xs x false = refl
