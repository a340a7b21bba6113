-- ===== src/Util/Timestamp/Tests.antt =====
-- Times in one microsecond, with a calendar that writes a second in 17 digits.
use gd_rpc.Base.{
  ap, drop, ◌%◌, ℕ, zero, suc, ◌≡◌, ◌<◌, ◌/◌, ◌↔◌, refl, List, [], ◌∷◌, length, arith,
}
use gd_rpc.Util.Timestamp.{Calendar, last_second, get_time_format_8601, padded}
use gd_rpc.Util.Timestamp.Texts.{format_8601_lem}
use gd_rpc.Text.Decimal.{print_nat, power_of_ten}

padded-some : padded 42 ≡ b'0' ∷ b'0' ∷ b'0' ∷ b'0' ∷ b'4' ∷ b'2' ∷ []
unfolding padded print_nat
padded-some = refl

-- `k` digits, the lowest first.
abbrev digits : ℕ → ℕ → List ℕ
digits zero n = []
digits (suc k) n = n % 10 ∷ digits k (n / 10)

length-digits : (k n : ℕ) → length (digits k n) ≡ k
length-digits zero n = refl
length-digits (suc k) n = ap suc (length-digits k (n / 10))

abbrev head_or_zero : List ℕ → ℕ
head_or_zero [] = 0
head_or_zero (x ∷ xs) = x

digits_inj : (k n m : ℕ) → n < power_of_ten k → m < power_of_ten k → digits k n ≡ digits k m → n ≡ m
digits_inj zero n m h l e = omega (arith, h, l)
digits_inj (suc k) n m h l e =
    let q : n / 10 ≡ m / 10 =
      digits_inj k (n / 10) (m / 10) (omega (arith, h)) (omega (arith, l)) (ap (drop 1) e) in
    let r : n % 10 ≡ m % 10 = ap head_or_zero e in omega (arith, q, r)

below : (s : ℕ) → s < last_second → s < power_of_ten 17
below s h = omega (arith, h)

abbrev calendar : Calendar
calendar = record {
  put_time = digits 17;
  strftime = digits 17;
  length-put_time = λ s h. length-digits 17 s;
  put_time_inj = λ s t h k. digits_inj 17 s t (below s h) (below t k);
}

format_8601_lem_sample :
    (length (get_time_format_8601 calendar 5000000400) ≡ 25)
    × ((get_time_format_8601 calendar 5000000400 ≡ get_time_format_8601 calendar 5000000900)
        ↔ (5000000400 / 1000 ≡ 5000000900 / 1000))
format_8601_lem_sample = format_8601_lem calendar 5000000400 5000000900 (omega arith) (omega arith)
