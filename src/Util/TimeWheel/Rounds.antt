-- ===== src/Util/TimeWheel/Rounds.antt =====
-- The arithmetic of a wheel of `len` slots: which slot a number of ticks leads to, and in which round.
use gd_rpc.Base.{ℕ, ◌+◌, ◌-◌, ◌/◌, ◌%◌, ◌≤◌, ◌<◌, ◌≡◌, ap, ◌∙◌, arith, ◌⊎◌, ◌≢◌}
use native.Mathlib.Nat.{mod-eq_of_lt, mod-eq-sub-mod, div-add-mod}
use native.Mathlib.Decide.{dec_lt}

-- A step of the count `n`: inside a round of the wheel, or on to the next round.
pub next_mod :
    (n len : ℕ)
    → 0 < len
    → (((n + 1) % len ≡ n % len + 1) × ((n + 1) / len ≡ n / len) × (n % len + 1 < len))
      ⊎ (((n + 1) % len ≡ 0) × ((n + 1) / len ≡ n / len + 1) × (n % len + 1 ≡ len))
next_mod n len h = grind arith

pub slot_inside :
    (c r len : ℕ)
    → c < len
    → r + 1 < len
    → (((c + 1) % len + r) % len ≡ (c + (r + 1)) % len) × ((c + (r + 1)) % len ≢ c)
slot_inside c r len h k = elim (dec_lt (c + 1) len) [
  | yes p ↦ (
    ap (λ m. m % len) {x = (c + 1) % len + r} {y = c + (r + 1)} (omega (arith, mod-eq_of_lt p)),
    grind arith,
  )
  | no p ↦ (
    omega (
      arith,
      mod-eq_of_lt {n = r} {m = len} (omega arith),
      ap (λ m. m % len) {x = (c + 1) % len + r} {y = r} (omega (arith, at_end p)),
      mod-eq-sub-mod {n = c + (r + 1)} {m = len} (omega arith),
      mod-eq_of_lt {n = c + (r + 1) - len} {m = len} (omega arith),
    ),
    grind arith,
  )
]
  where
    at_end : ¬ (c + 1 < len) → (c + 1) % len ≡ 0
    at_end p = grind arith

pub slot_round :
    (c r len : ℕ) → c < len → r + 1 ≡ len → (((c + 1) % len + r) % len ≡ c) × ((c + 0) % len ≡ c)
slot_round c r len h k = (grind arith, grind arith)

pub mod_once : (x len : ℕ) → len ≤ x → x < len + len → x % len ≡ x - len
mod_once x len h k =
    mod-eq-sub-mod {n = x} {m = len} h ∙ mod-eq_of_lt {n = x - len} {m = len} (omega arith)

pub slot_injective :
    (c a b len : ℕ) → c < len → a < len → b < len → (c + a) % len ≡ (c + b) % len → a ≡ b
slot_injective c a b len h k l e = elim (dec_lt (c + a) len) [
  | yes p ↦ elim (dec_lt (c + b) len) [
    | yes q ↦ omega (arith, mod-eq_of_lt p, mod-eq_of_lt q)
    | no q ↦ omega (arith, mod-eq_of_lt p, mod_once (c + b) len (omega arith) (omega arith))
  ]
  | no p ↦ elim (dec_lt (c + b) len) [
    | yes q ↦ omega (arith, mod-eq_of_lt q, mod_once (c + a) len (omega arith) (omega arith))
    | no q ↦ omega (
      arith,
      mod_once (c + a) len (omega arith) (omega arith),
      mod_once (c + b) len (omega arith) (omega arith),
    )
  ]
]

pub same_delay : (t n len : ℕ) → 0 < len → t % len ≡ n % len → t / len ≡ n / len → t ≡ n
same_delay t n len h e d = grind (arith, div-add-mod t len, div-add-mod n len)
