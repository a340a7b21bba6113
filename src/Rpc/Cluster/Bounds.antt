-- ===== src/Rpc/Cluster/Bounds.antt =====
-- The current weights stay in a range, so that the `int` that holds them does not overflow.
use gd_rpc.Base.Int.{ℤ, pos, negsuc, pos_part, neg_part, ◌+ℤ◌, ◌≤ℤ◌, int_laws}
use gd_rpc.Base.{
  ℕ, zero, suc, ◌≡◌, ◌<◌, ◌≤◌, ◌+◌, ◌*◌, refl, sym, ap, ◌∙◌, subst, List, [], ◌∷◌, none, some,
  get_elem?, length, arith, map,
}
use gd_rpc.Rpc.Cluster.{Client, raise, lower, scan_all, next}
use gd_rpc.Rpc.Cluster.Turns.{
  sum_current, sum_current-raise, sum_weight, IsMost, scan_all_lem, scan_all_picks, next_lem,
}
use gd_rpc.Rpc.Cluster.Skipped.{nexts}

-- No weight is negative, and no current weight is as low as `-w`.
abbrev pub AllAbove : ℕ → List Client → Type 0
AllAbove w [] = 0 ≤ 0
AllAbove w (c ∷ cs) = (pos 0 ≤ℤ c.weight) × (pos 1 ≤ℤ c.current_weight +ℤ pos w) × AllAbove w cs

pub record IsFair (w : ℕ) (cs : List Client) : Type 0 where
  pub some_weight : 0 < w
  pub weighs : sum_weight cs ≡ pos w
  pub balanced : sum_current cs ≡ pos 0
  pub above : AllAbove w cs

AllAbove-raise : (w : ℕ) (cs : List Client) → AllAbove w cs → AllAbove w (map raise cs)
AllAbove-raise w [] a = a
AllAbove-raise w (c ∷ cs) (n, l, a) = (n, omega (int_laws, n, l), AllAbove-raise w cs a)

AllAbove-lower :
    (w p : ℕ) (cs : List Client) (d : Client)
    → get_elem? cs p ≡ some d
    → pos 1 ≤ℤ d.current_weight
    → AllAbove w cs
    → AllAbove w (lower p (pos w) cs)
AllAbove-lower w p [] d e h a = a
AllAbove-lower w zero (c ∷ cs) d e h (n, l, a) =
    let f : d.current_weight ≡ c.current_weight =
      ap (λ o. elim o [ none ↦ d.current_weight | some x ↦ x.current_weight ]) (sym e) in
    let k : pos 1 ≤ℤ c.current_weight = subst (λ x. pos 1 ≤ℤ x) f h in (n, omega (int_laws, k), a)
AllAbove-lower w (suc p) (c ∷ cs) d e h (n, l, a) = (n, l, AllAbove-lower w p cs d e h a)

sum_weight-raise : (cs : List Client) → sum_weight (map raise cs) ≡ sum_weight cs
sum_weight-raise [] = refl
sum_weight-raise (c ∷ cs) = ap (λ s. c.weight +ℤ s) (sum_weight-raise cs)

sum_weight-lower : (p : ℕ) (t : ℤ) (cs : List Client) → sum_weight (lower p t cs) ≡ sum_weight cs
sum_weight-lower p t [] = refl
sum_weight-lower zero t (c ∷ cs) = refl
sum_weight-lower (suc p) t (c ∷ cs) = ap (λ s. c.weight +ℤ s) (sum_weight-lower p t cs)

-- Where the heaviest is not positive, the sum is not either.
sum_current-IsMost : (x : ℤ) (cs : List Client) → IsMost x cs → x ≤ℤ pos 0 → sum_current cs ≤ℤ pos 0
sum_current-IsMost x [] m h = omega arith
sum_current-IsMost x (c ∷ cs) (l, m) h = omega (int_laws, l, sum_current-IsMost x cs m h)

positive : (x : ℤ) (b : ℕ) → (x ≤ℤ pos 0 → b ≡ 0) → 0 < b → pos 1 ≤ℤ x
positive (pos zero) b f h = absurd (omega (arith, f (omega arith)))
positive (pos (suc n)) b f h = omega arith
positive (negsuc n) b f h = absurd (omega (arith, f (omega arith)))

zero_add_ℤ : (w : ℕ) → pos 0 +ℤ pos w ≡ pos w
zero_add_ℤ w = omega int_laws

at_most : (w : ℕ) {s : ℤ} → s ≡ pos w → s ≤ℤ pos 0 → w ≡ 0
at_most w e h = let k : pos w ≤ℤ pos 0 = subst (λ x. x ≤ℤ pos 0) e h in omega arith

neg_part-le : (x : ℤ) (w : ℕ) → pos 1 ≤ℤ x +ℤ pos w → neg_part x ≤ w
neg_part-le (pos n) w h = omega arith
neg_part-le (negsuc n) w h = omega (int_laws, h)

neg_part-lt : (x : ℤ) (w : ℕ) → pos 1 ≤ℤ x +ℤ pos w → 0 < w → neg_part x < w
neg_part-lt (pos n) w h k = k
neg_part-lt (negsuc n) w h k = omega (int_laws, h)

length-raise : (cs : List Client) → length (map raise cs) ≡ length cs
length-raise [] = refl
length-raise (c ∷ cs) = ap suc (length-raise cs)

length-lower : (p : ℕ) (t : ℤ) (cs : List Client) → length (lower p t cs) ≡ length cs
length-lower p t [] = refl
length-lower zero t (c ∷ cs) = refl
length-lower (suc p) t (c ∷ cs) = ap suc (length-lower p t cs)

-- What a turn of two clients or more makes of the list.
turned :
    (c d : Client) (cs : List Client) (w : ℕ)
    → sum_weight (c ∷ d ∷ cs) ≡ pos w
    → (p : ℕ) × (x : Client) × ((next (c ∷ d ∷ cs)).1 ≡ lower p (pos w) (map raise (c ∷ d ∷ cs)))
      × (get_elem? (map raise (c ∷ d ∷ cs)) p ≡ some x)
      × IsMost x.current_weight (map raise (c ∷ d ∷ cs))
unfolding next
turned c d cs w h =
    let (e, t) = scan_all_lem c (d ∷ cs) in
    let (x, g, m) = scan_all_picks c (d ∷ cs) in
    let (cs', p, total) = scan_all c (d ∷ cs) in
    let t' : total ≡ pos w = t ∙ h in
    (
      p,
      x,
      λ i. lower p (t' i) (e i),
      subst (λ l. get_elem? l p ≡ some x) e g,
      subst (IsMost x.current_weight) e m,
    )

next-IsFair :
    (w : ℕ) (cs : List Client)
    → IsFair w cs
    → IsFair w (next cs).1 × (length (next cs).1 ≡ length cs)
unfolding next
next-IsFair w [] f = (f, refl)
next-IsFair w (c ∷ []) f = (f, refl)
next-IsFair w (c ∷ d ∷ cs) f =
    let all = c ∷ d ∷ cs in
    let (p, x, e, g, m) = turned c d cs w f.weighs in
    let raised : sum_current (map raise all) ≡ pos w =
      sum_current-raise all ∙ (λ i. f.balanced i +ℤ f.weighs i) ∙ zero_add_ℤ w in
    let heavy : pos 1 ≤ℤ x.current_weight =
      positive x.current_weight w
        (λ h.
          omega (arith, at_most w raised (sum_current-IsMost x.current_weight (map raise all) m h)))
        f.some_weight in
    (
      record {
        some_weight = f.some_weight;
        weighs =
            ap sum_weight e
            ∙ sum_weight-lower p (pos w) (map raise all)
            ∙ sum_weight-raise all
            ∙ f.weighs;
        balanced = (next_lem c d cs).1 ∙ f.balanced;
        above =
            subst (AllAbove w) (sym e)
              (AllAbove-lower w p (map raise all) x g heavy (AllAbove-raise w all f.above));
      },
      ap length e ∙ length-lower p (pos w) (map raise all) ∙ length-raise all,
    )

nexts-IsFair :
    (k w : ℕ) (cs : List Client)
    → IsFair w cs
    → IsFair w (nexts k cs).1 × (length (nexts k cs).1 ≡ length cs)
unfolding nexts
nexts-IsFair zero w cs f = (f, refl)
nexts-IsFair (suc k) w cs f =
    let (f', e) = next-IsFair w cs f in
    let (f'', e') = nexts-IsFair k w (next cs).1 f' in (f'', e' ∙ e)

-- The sums of what is above 0 and of what is below.
abbrev gains : List Client → ℕ
gains [] = 0
gains (c ∷ cs) = pos_part c.current_weight + gains cs

abbrev losses : List Client → ℕ
losses [] = 0
losses (c ∷ cs) = neg_part c.current_weight + losses cs

sum_current_parts :
    (cs : List Client)
    → pos_part (sum_current cs) + losses cs ≡ neg_part (sum_current cs) + gains cs
sum_current_parts [] = refl
sum_current_parts (c ∷ cs) = omega (int_laws, sum_current_parts cs)

losses-le : (w : ℕ) (cs : List Client) → AllAbove w cs → losses cs ≤ length cs * w
losses-le w [] a = omega arith
losses-le w (c ∷ cs) (n, l, a) = grind (arith, losses-le w cs a, neg_part-le c.current_weight w l)

-- Every current weight is above `-low` and at most `high`.
abbrev pub AllWithin : ℕ → ℕ → List Client → Type 0
AllWithin low high [] = 0 ≤ 0
AllWithin low high (c ∷ cs) =
    (neg_part c.current_weight < low) × (pos_part c.current_weight ≤ high) × AllWithin low high cs

AllWithin-gains :
    (w high : ℕ) (cs : List Client) → AllAbove w cs → gains cs ≤ high → 0 < w → AllWithin w high cs
AllWithin-gains w high [] a h k = omega arith
AllWithin-gains w high (c ∷ cs) (n, l, a) h k = (
  neg_part-lt c.current_weight w l k,
  omega (arith, h),
  AllWithin-gains w high cs a (omega (arith, h)) k,
)

-- Of clients with no negative weight, whose weights add up to `w`, above 0, if their current weights,
-- which nothing in the code initialises, start with the sum 0 and all above `-w`: after any number
-- of turns each current weight is above `-w` and at most `w` times the number of clients, the weights
-- still add up to `w` with none negative, and the current weights to 0.
pub nexts-AllWithin :
    (k w : ℕ) (cs : List Client)
    → IsFair w cs
    → let cs' = (nexts k cs).1 in AllWithin w (length cs * w) cs' × IsFair w cs'
nexts-AllWithin k w cs f =
    let (f', e) = nexts-IsFair k w cs f in
    let cs' = (nexts k cs).1 in
    (
      AllWithin-gains w (length cs * w) cs' f'.above
          (omega (
            arith,
            sum_current_parts cs',
            ap pos_part f'.balanced,
            ap neg_part f'.balanced,
            subst (λ n. losses cs' ≤ n * w) e (losses-le w cs' f'.above),
          ))
          f'.some_weight,
      f',
    )
