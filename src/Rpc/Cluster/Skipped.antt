-- ===== src/Rpc/Cluster/Skipped.antt =====
-- `RpcCluster::call` uses every second turn.
use gd_rpc.Base.{ℕ, zero, suc, ◌≡◌, refl, sym, ap, ◌∙◌, List, [], ◌∷◌, Option, some}
use gd_rpc.Base.Int.{ℤ}
use gd_rpc.Rpc.Cluster.{Client, raise, scan_all, lower, next, call, calls}
use gd_rpc.Rpc.Cluster.Turns.{next_lem}

-- The picks of `n` turns of `Next`.
unfoldable pub nexts : ℕ → List Client → List (Option ℕ) × List Client
nexts zero cs = ([], cs)
nexts (suc n) cs = let (c, cs') = next cs in let (rest, cs'') = nexts n cs' in (c ∷ rest, cs'')

-- The second of every two.
abbrev pub seconds : List (Option ℕ) → List (Option ℕ)
seconds [] = []
seconds (x ∷ []) = []
seconds (x ∷ y ∷ xs) = y ∷ seconds xs

abbrev pub twice : ℕ → ℕ
twice zero = zero
twice (suc n) = suc (suc (twice n))

lower_cons :
    (p : ℕ) (total : ℤ) (c : Client) (cs : List Client)
    → (d : Client) × (ds : List Client) × (lower p total (c ∷ cs) ≡ d ∷ ds)
lower_cons zero total c cs = (_, _, refl)
lower_cons (suc p) total c cs = (_, _, refl)

-- A turn of a list that is not empty picks a client and leaves it so.
next_some :
    (c : Client) (cs : List Client)
    → (x : ℕ) × (d : Client) × (ds : List Client) × (next (c ∷ cs) ≡ (some x, d ∷ ds))
unfolding next
next_some c [] = (c.client, c, [], refl)
next_some c (e ∷ cs) =
    let ((p, x, _, _, h), _) = next_lem c e cs in
    let (ls, q, total) = scan_all c (e ∷ cs) in
    let (d, ds, g) = lower_cons q total (raise c) _ in (x.client, d, ds, λ i. (h i, g i))

call-nexts :
    (c : Client) (cs : List Client)
    → (d : Client) × (ds : List Client) × (x : ℕ) × (y : ℕ) × (call (c ∷ cs) ≡ (some y, d ∷ ds))
      × ((n : ℕ)
          → nexts (suc (suc n)) (c ∷ cs)
            ≡ (some x ∷ some y ∷ (nexts n (d ∷ ds)).0, (nexts n (d ∷ ds)).1))
unfolding call nexts
call-nexts c cs =
    let (x, b, bs, e) = next_some c cs in
    let (y, d, ds, f) = next_some b bs in (d, ds, x, y, rw (e, call) f, λ n. rw (e, f, nexts) refl)

-- Of clients of which there is one at least, any number of calls use the second of every two turns
-- that `Next` takes, and leave the weights that twice as many turns leave.
pub calls-nexts :
    (n : ℕ) (c : Client) (cs : List Client)
    → let (picks, cs') = nexts (twice n) (c ∷ cs) in calls n (c ∷ cs) ≡ (seconds picks, cs')
unfolding calls nexts
calls-nexts zero c cs = refl
calls-nexts (suc n) c cs =
    let (d, ds, x, y, e, f) = call-nexts c cs in
    ap (λ t. (t.0 ∷ (calls n t.1).0, (calls n t.1).1)) e
    ∙ ap (λ t. (some y ∷ t.0, t.1)) (calls-nexts n d ds)
    ∙ sym (ap (λ t. (seconds t.0, t.1)) (f (twice n)))
