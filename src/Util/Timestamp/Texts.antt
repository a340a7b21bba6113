-- ===== src/Util/Timestamp/Texts.antt =====
-- The text of a time tells its microsecond.
use gd_rpc.Base.{
  ℕ, zero, suc, ◌≡◌, ◌<◌, ◌-◌, ◌/◌, ◌%◌, refl, sym, ap, ◌∙◌, List, [], ◌∷◌, ◌++◌, length,
  length-append, length-replicate, replicate, append_cancel_right, append-nil, arith, drop, take,
  ◌↔◌,
}
use gd_rpc.Text.Decimal.{print_nat, read_nat, read_nat-print_nat, length-print_nat}
use gd_rpc.Util.Timestamp.{Calendar, last_second, get_time_t, padded, get_time_format_8601}

read_nat-zeros : (k : ℕ) (s : List ℕ) → read_nat 0 (replicate k b'0' ++ s) ≡ read_nat 0 s
unfolding read_nat
read_nat-zeros zero s = refl
read_nat-zeros (suc k) s = read_nat-zeros k s

read_nat-padded : (n : ℕ) → read_nat 0 (padded n) ≡ n
unfolding padded read_nat
read_nat-padded n =
    read_nat-zeros (6 - length (print_nat n)) (print_nat n)
    ∙ ap (read_nat 0) (sym (append-nil (print_nat n)))
    ∙ read_nat-print_nat n []

length-padded : (n : ℕ) → n < 1000000 → length (padded n) ≡ 6
unfolding padded
length-padded n h = omega (
  arith,
  length-append (replicate (6 - length (print_nat n)) b'0') (print_nat n),
  length-replicate {A = ℕ} (6 - length (print_nat n)) b'0',
  length-print_nat n 5 (omega (arith, h)),
)

append_split :
    (xs ys as' bs : List ℕ) → length xs ≡ length ys → xs ++ as' ≡ ys ++ bs → (xs ≡ ys) × (as' ≡ bs)
append_split [] [] as' bs h e = (refl, e)
append_split [] (y ∷ ys) as' bs h e = absurd (omega (arith, h))
append_split (x ∷ xs) [] as' bs h e = absurd (omega (arith, h))
append_split (x ∷ xs) (y ∷ ys) as' bs h e =
    let (p, q) = append_split xs ys as' bs (omega (arith, h)) (ap (drop 1) e) in
    let k : x ∷ [] ≡ y ∷ [] = ap (take 1) e in ((λ i. k i ++ p i), q)

same_micro :
    (t u : ℕ)
    → t / 1000000000 ≡ u / 1000000000
    → t / 1000 % 1000000 ≡ u / 1000 % 1000000
    → t / 1000 ≡ u / 1000
same_micro t u h k = omega (arith, h, k)

same_second : (t u : ℕ) → t / 1000 ≡ u / 1000 → t / 1000000000 ≡ u / 1000000000
same_second t u h = omega (arith, h)

module _ (c : Calendar) where
  format_8601_inj :
      (t u : ℕ)
      → t / 1000000000 < last_second
      → u / 1000000000 < last_second
      → get_time_format_8601 c t ≡ get_time_format_8601 c u
      → t / 1000 ≡ u / 1000
  unfolding get_time_format_8601 get_time_t
  format_8601_inj t u h k e =
      let (p, q) =
        append_split (c.put_time (t / 1000000000)) (c.put_time (u / 1000000000)) _ _
          (c.length-put_time (t / 1000000000) h ∙ sym (c.length-put_time (u / 1000000000) k)) e in
      let m : padded (t / 1000 % 1000000) ≡ padded (u / 1000 % 1000000) =
        append_cancel_right _ _ (b'Z' ∷ []) (ap (drop 1) q) in
      same_micro t u (c.put_time_inj (t / 1000000000) (u / 1000000000) h k p) (
        sym (read_nat-padded (t / 1000 % 1000000))
        ∙ ap (read_nat 0) m
        ∙ read_nat-padded (u / 1000 % 1000000))

  -- Up to the year 9999, the text of a time has 25 bytes, and two times have the same text exactly if
  -- they lie in the same microsecond.
  pub format_8601_lem :
      (t u : ℕ)
      → t / 1000000000 < last_second
      → u / 1000000000 < last_second
      → (length (get_time_format_8601 c t) ≡ 25)
        × ((get_time_format_8601 c t ≡ get_time_format_8601 c u) ↔ (t / 1000 ≡ u / 1000))
  unfolding get_time_format_8601 get_time_t
  format_8601_lem t u h k =
      let s = t / 1000000000 in
      (
        omega (
          arith,
          length-append (c.put_time s) (b'.' ∷ (padded (t / 1000 % 1000000) ++ (b'Z' ∷ []))),
          c.length-put_time s h,
          length-append (padded (t / 1000 % 1000000)) (b'Z' ∷ []),
          length-padded (t / 1000 % 1000000) (omega arith),
        ),
        (
          format_8601_inj t u h k,
          λ e j.
              c.put_time (same_second t u e j) ++ (b'.' ∷ (padded (e j % 1000000) ++ (b'Z' ∷ []))),
        ),
      )
