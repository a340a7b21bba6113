-- ===== src/Text/Decimal.antt =====
-- `%d` of printf and `atoi` of the C library, on bytes.
use gd_rpc.Base.{
  ℕ, zero, suc, ◌≡◌, ◌≤◌, ◌<◌, ◌+◌, ◌-◌, ◌*◌, ◌/◌, ◌%◌, refl, sym, ap, ◌∙◌, List, [], ◌∷◌, ◌++◌,
  Bool, true, false, ◌&&◌, ◌||◌, ltb, leb, ◌==◌, if◌then◌else◌, arith, append_assoc, length,
  length-append, Bool-cases, inl, inr, ◌≢◌,
}
use gd_rpc.Base.Int.{ℤ, pos, negsuc}

abbrev pub is_digit : ℕ → Bool
is_digit c = leb b'0' c && leb c b'9'

-- `isspace`: a blank, or one of the five from the tab on.
abbrev pub is_space : ℕ → Bool
is_space c = c == b' ' || (leb 9 c && leb c 13)

-- The fuel is one more than the number, which is more than its digits.
digits : ℕ → ℕ → List ℕ
digits zero n = []
digits (suc f) n = elim (ltb n 10) [
  | true ↦ (b'0' + n) ∷ []
  | false ↦ digits f (n / 10) ++ ((b'0' + n % 10) ∷ [])
]

unfoldable pub print_nat : ℕ → List ℕ
unfolding digits
print_nat n = digits (suc n) n

unfoldable pub print_int : ℤ → List ℕ
unfolding print_nat
print_int (pos n) = print_nat n
print_int (negsuc n) = b'-' ∷ print_nat (suc n)

-- The digits in front of a text, after those that make `acc`.
unfoldable pub read_nat : ℕ → List ℕ → ℕ
read_nat acc [] = acc
read_nat acc (c ∷ cs) =
    let more = read_nat (acc * 10 + (c - b'0')) cs in if is_digit c then more else acc

abbrev pub negate : ℕ → ℤ
negate zero = pos 0
negate (suc n) = negsuc n

unfoldable pub atoi : List ℕ → ℤ
unfolding read_nat
atoi [] = pos 0
atoi (c ∷ cs) =
    let more = atoi cs in
    if is_space c
    then more
    else if c == b'-'
    then negate (read_nat 0 cs)
    else if c == b'+'
    then pos (read_nat 0 cs)
    else pos (read_nat 0 (c ∷ cs))

abbrev pub AllDigits : List ℕ → Type 0
AllDigits [] = 0 ≤ 0
AllDigits (c ∷ cs) = (is_digit c ≡ true) × AllDigits cs

AllDigits-append : (xs ys : List ℕ) → AllDigits xs → AllDigits ys → AllDigits (xs ++ ys)
AllDigits-append [] ys h k = k
AllDigits-append (x ∷ xs) ys (h, hs) k = (h, AllDigits-append xs ys hs k)

digits-AllDigits : (f n : ℕ) → AllDigits (digits f n)
unfolding digits
digits-AllDigits zero n = omega arith
digits-AllDigits (suc f) n = elim (Bool-cases (ltb n 10)) [
  | inl t ↦ rw (t, digits) (ground arith, omega arith)
  | inr t ↦
      rw (t, digits)
        (AllDigits-append (digits f (n / 10)) ((b'0' + n % 10) ∷ []) (digits-AllDigits f (n / 10))
          (ground arith, omega arith))
]

-- Every byte of a printed number is a digit.
pub print_nat-AllDigits : (n : ℕ) → AllDigits (print_nat n)
unfolding print_nat
print_nat-AllDigits n = digits-AllDigits (suc n) n

read_nat-digits :
    (f n : ℕ) (rest : List ℕ) → n < f → read_nat 0 (digits f n ++ rest) ≡ read_nat n rest
unfolding digits read_nat
read_nat-digits zero n rest h = absurd (omega arith)
read_nat-digits (suc f) n rest h = elim (Bool-cases (ltb n 10)) [
  | inl t ↦ ground (arith, t)
  | inr t ↦
      rw (t, digits)
        (ap (read_nat 0) (append_assoc (digits f (n / 10)) ((b'0' + n % 10) ∷ []) rest)
          ∙ read_nat-digits f (n / 10) ((b'0' + n % 10) ∷ rest) (ground (arith, t))
          ∙ ground arith)
]

pub read_nat-print_nat :
    (n : ℕ) (rest : List ℕ) → read_nat 0 (print_nat n ++ rest) ≡ read_nat n rest
unfolding print_nat
read_nat-print_nat n rest = read_nat-digits (suc n) n rest (omega arith)

pub print_nat_inj : (n m : ℕ) → print_nat n ≡ print_nat m → n ≡ m
unfolding read_nat
print_nat_inj n m e =
    sym (read_nat-print_nat n []) ∙ ap (λ s. read_nat 0 (s ++ [])) e ∙ read_nat-print_nat m []

-- Numbers below a power of ten have that many digits at most.
abbrev pub power_of_ten : ℕ → ℕ
power_of_ten zero = 1
power_of_ten (suc k) = 10 * power_of_ten k

length-digits : (f n k : ℕ) → n < power_of_ten (suc k) → length (digits f n) ≤ suc k
unfolding digits
length-digits zero n k h = omega arith
length-digits (suc f) n zero h = ground arith
length-digits (suc f) n (suc k) h = elim (Bool-cases (ltb n 10)) [
  | inl t ↦ rw (t, digits) (omega arith)
  | inr t ↦
      rw (t, digits)
        (omega (
          arith,
          length-append (digits f (n / 10)) ((b'0' + n % 10) ∷ []),
          length-digits f (n / 10) k (omega arith),
        ))
]

pub length-print_nat : (n k : ℕ) → n < power_of_ten (suc k) → length (print_nat n) ≤ suc k
unfolding print_nat
length-print_nat n k h = length-digits (suc n) n k h

-- No digit stands in front.
abbrev pub IsEnd : List ℕ → Type 0
IsEnd [] = 0 ≤ 0
IsEnd (c ∷ cs) = is_digit c ≡ false

read_nat_end : (n : ℕ) (rest : List ℕ) → IsEnd rest → read_nat n rest ≡ n
unfolding read_nat
read_nat_end n [] h = refl
read_nat_end n (c ∷ cs) h = rw h refl

snoc-ne-nil : (xs : List ℕ) (y : ℕ) → xs ++ (y ∷ []) ≢ []
snoc-ne-nil [] y e = cc
snoc-ne-nil (x ∷ xs) y e = cc

pub print_nat-ne-nil : (n : ℕ) → print_nat n ≢ []
unfolding print_nat digits
print_nat-ne-nil n e = elim (Bool-cases (ltb n 10)) [
  | inl t ↦ ground (arith, t)
  | inr t ↦ snoc-ne-nil (digits n (n / 10)) (b'0' + n % 10) (rw (t, digits) at e)
]

atoi-digit : (c : ℕ) (cs : List ℕ) → is_digit c ≡ true → (atoi (c ∷ cs) ≡ pos (read_nat 0 (c ∷ cs)))
unfolding atoi
atoi-digit c cs h = ground arith

atoi-minus : (cs : List ℕ) → atoi (b'-' ∷ cs) ≡ negate (read_nat 0 cs)
unfolding atoi
atoi-minus cs = refl

atoi-AllDigits :
    (ds rest : List ℕ) → AllDigits ds → ds ≢ [] → atoi (ds ++ rest) ≡ pos (read_nat 0 (ds ++ rest))
atoi-AllDigits [] rest h e = absurd (e refl)
atoi-AllDigits (c ∷ cs) rest (h, hs) e = atoi-digit c (cs ++ rest) h

-- `atoi` reads back what `%d` printed, up to what follows, if that does not go on with a digit.
pub atoi-print_int : (z : ℤ) (rest : List ℕ) → IsEnd rest → atoi (print_int z ++ rest) ≡ z
unfolding print_int
atoi-print_int (pos n) rest h =
    atoi-AllDigits (print_nat n) rest (print_nat-AllDigits n) (print_nat-ne-nil n)
    ∙ ap pos (read_nat-print_nat n rest ∙ read_nat_end n rest h)
atoi-print_int (negsuc n) rest h =
    atoi-minus (print_nat (suc n) ++ rest)
    ∙ ap negate (read_nat-print_nat (suc n) rest ∙ read_nat_end (suc n) rest h)
