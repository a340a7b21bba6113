-- ===== src/Rpc/Cluster/Turns.antt =====
-- Which client a turn picks, and how the turns keep the weights in balance.
use gd_rpc.Base.Int.{ℤ, pos, ◌+ℤ◌, ◌-ℤ◌, ◌≤ℤ◌, ltb_ℤ, int_laws}
use gd_rpc.Base.{
  ℕ, zero, suc, ◌≡◌, ◌<◌, ◌+◌, refl, sym, ap, ◌∙◌, subst, Bool, List, [], ◌∷◌, none, some,
  if◌then◌else◌, get_elem?, replicate, length, arith, ◌⊎◌, inl, inr, map, true, false,
}
use gd_rpc.Rpc.Cluster.{Client, raise, scan, lower, client_at, scan_all, next, call, calls}

-- The sums of the current weights and of the weights.
abbrev pub sum_current : List Client → ℤ
sum_current [] = pos 0
sum_current (c ∷ cs) = c.current_weight +ℤ sum_current cs

abbrev pub sum_weight : List Client → ℤ
sum_weight [] = pos 0
sum_weight (c ∷ cs) = c.weight +ℤ sum_weight cs

pub sum_current-raise :
    (cs : List Client) → sum_current (map raise cs) ≡ sum_current cs +ℤ sum_weight cs
sum_current-raise [] = grind int_laws
sum_current-raise (c ∷ cs) = grind (int_laws, sum_current-raise cs)

sum_current-lower :
    (p : ℕ) (total : ℤ) (cs : List Client)
    → p < length cs
    → sum_current (lower p total cs) ≡ sum_current cs -ℤ total
sum_current-lower p total [] h = absurd (omega arith)
sum_current-lower zero total (c ∷ cs) h = grind int_laws
sum_current-lower (suc p) total (c ∷ cs) h =
    grind (int_laws, sum_current-lower p total cs (omega arith))

scan_lem :
    (i p : ℕ) (best total : ℤ) (cs : List Client)
    → let (cs', p', total') = scan i p best total cs in
      (cs' ≡ map raise cs) × (total' ≡ total +ℤ sum_weight cs)
scan_lem i p best total [] = (refl, grind int_laws)
scan_lem i p best total (c ∷ cs) =
    let wins = ltb_ℤ best (raise c).current_weight in
    let (e, t) =
      scan_lem (suc i) (if wins then i else p) (if wins then (raise c).current_weight else best)
        (total +ℤ c.weight) cs in
    (ap (λ l. raise c ∷ l) e, grind (int_laws, t))

-- No element of a list is heavier than a weight.
abbrev pub IsMost : ℤ → List Client → Type 0
IsMost w [] = w ≡ w
IsMost w (c ∷ cs) = (c.current_weight ≤ℤ w) × IsMost w cs

≤ℤ_trans : (a b c : ℤ) → a ≤ℤ b → b ≤ℤ c → a ≤ℤ c
≤ℤ_trans a b c h k = omega arith

compare_lem :
    (best x : ℤ) (i p : ℕ) (b : Bool)
    → ltb_ℤ best x ≡ b
    → (best ≤ℤ (if b then x else best))
      × (x ≤ℤ (if b then x else best))
      × ((((if b then i else p) ≡ i) × ((if b then x else best) ≡ x))
          ⊎ (((if b then i else p) ≡ p) × ((if b then x else best) ≡ best)))
compare_lem best x i p true h = (ground (arith, h), omega arith, inl (refl, refl))
compare_lem best x i p false h = (omega arith, ground (arith, h), inr (refl, refl))

-- Where the loop leaves `p`: at an element whose weight is at least `best` and all others'.
scan_picks :
    (i p : ℕ) (best total : ℤ) (cs : List Client)
    → let (cs', p', _) = scan i p best total cs in
      (w : ℤ) × (best ≤ℤ w)
      × IsMost w cs'
      × (((p' ≡ p) × (w ≡ best))
          ⊎ ((k : ℕ) × (c : Client) × (p' ≡ i + k)
              × (get_elem? cs' k ≡ some c)
              × (c.current_weight ≡ w)))
scan_picks i p best total [] = (best, omega arith, refl, inl (refl, refl))
scan_picks i p best total (c ∷ cs) =
    let x = (raise c).current_weight in
    let (l1, l2, o) = compare_lem best x i p (ltb_ℤ best x) refl in
    let (w, l, m, r) =
      scan_picks (suc i) (if ltb_ℤ best x then i else p) (if ltb_ℤ best x then x else best)
        (total +ℤ c.weight) cs in
    (
      w,
      ≤ℤ_trans best (if ltb_ℤ best x then x else best) w l1 l,
      (≤ℤ_trans x (if ltb_ℤ best x then x else best) w l2 l, m),
      elim r [
        | inl (e, f) ↦ elim o [
          | inl (e', f') ↦ inr (0, raise c, e ∙ e' ∙ omega arith, refl, sym (f ∙ f'))
          | inr (e', f') ↦ inl (e ∙ e', f ∙ f')
        ]
        | inr (k, d, e, f, g) ↦ inr (suc k, d, e ∙ omega arith, f, g)
      ],
    )

-- Where `p` stands after the whole loop.
pub scan_all_picks :
    (c : Client) (cs : List Client)
    → let (cs', p, total) = scan_all c cs in
      (d : Client) × (get_elem? cs' p ≡ some d) × IsMost d.current_weight cs'
scan_all_picks c cs =
    let (w, l, m, r) = scan_picks 1 0 (raise c).current_weight (pos 0 +ℤ c.weight) cs in
    elim r [
      | inl (e, f) ↦ (
        raise c,
        ap (get_elem? (scan_all c cs).0) e,
        subst (λ v. IsMost v (scan_all c cs).0) f (l, m),
      )
      | inr (k, d, e, f, g) ↦
          let e' : (scan_all c cs).1 ≡ suc k = e ∙ omega arith in
          (
            d,
            ap (get_elem? (scan_all c cs).0) e' ∙ f,
            subst (λ v. IsMost v (scan_all c cs).0) (sym g) (l, m),
          )
    ]

client_at-lower :
    (p : ℕ) (total : ℤ) (cs : List Client) (c : Client)
    → get_elem? cs p ≡ some c
    → (client_at (lower p total cs) p ≡ some c.client) × (p < length cs)
client_at-lower p total [] c e = cc
client_at-lower zero total (d ∷ cs) c e =
    (ap (λ o. elim o [ none ↦ none | some x ↦ some x.client ]) e, omega arith)
client_at-lower (suc p) total (d ∷ cs) c e =
    let (f, h) = client_at-lower p total cs c e in (f, omega arith)

pub scan_all_lem :
    (c : Client) (cs : List Client)
    → let (cs', p, total) = scan_all c cs in
      (cs' ≡ map raise (c ∷ cs)) × (total ≡ sum_weight (c ∷ cs))
scan_all_lem c cs =
    let (e, t) = scan_lem 1 0 (raise c).current_weight (pos 0 +ℤ c.weight) cs in
    (ap (λ l. raise c ∷ l) e, grind (int_laws, t))

-- With two clients or more, a turn picks one whose current weight, once each weight has been added
-- to its client's, is at least every other's. The sum of the current weights stays as it was.
pub next_lem :
    (c d : Client) (cs : List Client)
    → let (picked, cs') = next (c ∷ d ∷ cs) in
      let raised = map raise (c ∷ d ∷ cs) in
      ((p : ℕ) × (x : Client) × (get_elem? raised p ≡ some x)
        × IsMost x.current_weight raised
        × (picked ≡ some x.client))
      × (sum_current cs' ≡ sum_current (c ∷ d ∷ cs))
unfolding next
next_lem c d cs =
    let (e, t) = scan_all_lem c (d ∷ cs) in
    let (x, g, m) = scan_all_picks c (d ∷ cs) in
    let (cs', p, total) = scan_all c (d ∷ cs) in
    let (q, h) = client_at-lower p total cs' x g in
    (
      (p, x, subst (λ l. get_elem? l p ≡ some x) e g, subst (IsMost x.current_weight) e m, q),
      balance (c ∷ d ∷ cs) cs' total e t (sum_current-lower p total cs' h),
    )
  where
    balance :
        (cs cs' : List Client) (total : ℤ) {s : ℤ}
        → cs' ≡ map raise cs
        → total ≡ sum_weight cs
        → s ≡ sum_current cs' -ℤ total
        → s ≡ sum_current cs
    balance cs cs' total e t h =
        h
        ∙ ap (λ v. sum_current cs' -ℤ v) t
        ∙ ap (λ l. sum_current l -ℤ sum_weight cs) e
        ∙ grind (int_laws, sum_current-raise cs)

-- Two clients of weight 1, at rest.
abbrev pub pair : ℕ → ℕ → List Client
pair a b =
    record { weight = pos 1; current_weight = pos 0; client = a }
    ∷ record { weight = pos 1; current_weight = pos 0; client = b }
    ∷ []

call-pair : (a b : ℕ) → call (pair a b) ≡ (some b, pair a b)
unfolding call next ◌+ℤ◌ ◌-ℤ◌
call-pair a b = refl

-- Of two clients of weight 1 that are at rest, every call uses the second, and leaves both at rest.
pub calls-pair : (n a b : ℕ) → calls n (pair a b) ≡ (replicate n (some b), pair a b)
unfolding calls
calls-pair zero a b = refl
calls-pair (suc n) a b =
    ap (λ t. let (rest, cs'') = calls n t.1 in (t.0 ∷ rest, cs'')) (call-pair a b)
    ∙ ap (λ t. (some b ∷ t.0, t.1)) (calls-pair n a b)
