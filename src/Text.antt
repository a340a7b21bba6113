-- ===== src/Text.antt =====
-- Byte strings: the test of equality, and maps keyed by them.
pub mod Decimal
mod Tests
use gd_rpc.Base.{
  ℕ, ◌≡◌, refl, List, [], ◌∷◌, Bool, true, false, ◌&&◌, ◌==◌, if◌then◌else◌, Option, none, some,
  arith, ◌↔◌,
}

abbrev pub bytes_eq : List ℕ → List ℕ → Bool
bytes_eq [] [] = true
bytes_eq [] (y ∷ ys) = false
bytes_eq (x ∷ xs) [] = false
bytes_eq (x ∷ xs) (y ∷ ys) = x == y && bytes_eq xs ys

pub bytes_eq_sound : (xs ys : List ℕ) → bytes_eq xs ys ≡ true → xs ≡ ys
bytes_eq_sound [] [] h = refl
bytes_eq_sound [] (y ∷ ys) h = cc
bytes_eq_sound (x ∷ xs) [] h = cc
bytes_eq_sound (x ∷ xs) (y ∷ ys) h = ground (arith, bytes_eq_sound xs ys)

pub bytes_eq_self : (xs : List ℕ) → bytes_eq xs xs ≡ true
bytes_eq_self [] = refl
bytes_eq_self (x ∷ xs) = ground (arith, bytes_eq_self xs)

pub bytes_eq_iff : (xs ys : List ℕ) → (bytes_eq xs ys ≡ true) ↔ (xs ≡ ys)
bytes_eq_iff xs ys = (bytes_eq_sound xs ys, λ e. rw e (bytes_eq_self ys))

module _ {ℓ} {V : Type ℓ} where
  abbrev pub lookup_text : List ℕ → List (List ℕ × V) → Option V
  lookup_text k [] = none
  lookup_text k ((j, v) ∷ m) = if bytes_eq j k then some v else lookup_text k m

  abbrev pub insert_text : List ℕ → V → List (List ℕ × V) → List (List ℕ × V)
  insert_text k v [] = (k, v) ∷ []
  insert_text k v ((j, w) ∷ m) = if bytes_eq j k then (k, v) ∷ m else (j, w) ∷ insert_text k v m

  pub lookup_text-insert_text :
      (k j : List ℕ) (v : V) (m : List (List ℕ × V))
      → lookup_text j (insert_text k v m) ≡ (if bytes_eq k j then some v else lookup_text j m)
  lookup_text-insert_text k j v [] = refl
  lookup_text-insert_text k j v ((i, w) ∷ m) =
      ground (
        arith,
        bytes_eq_iff k j,
        bytes_eq_iff i k,
        bytes_eq_iff i j,
        lookup_text-insert_text k j v m,
      )

  abbrev pub erase_text : List ℕ → List (List ℕ × V) → List (List ℕ × V)
  erase_text k [] = []
  erase_text k ((j, w) ∷ m) =
      let rest = erase_text k m in if bytes_eq j k then rest else (j, w) ∷ rest

  pub lookup_text-erase_text :
      (k j : List ℕ) (m : List (List ℕ × V))
      → lookup_text j (erase_text k m) ≡ (if bytes_eq k j then none else lookup_text j m)
  lookup_text-erase_text k j [] = ground arith
  lookup_text-erase_text k j ((i, w) ∷ m) =
      ground
        (arith, bytes_eq_iff k j, bytes_eq_iff i k, bytes_eq_iff i j, lookup_text-erase_text k j m)
