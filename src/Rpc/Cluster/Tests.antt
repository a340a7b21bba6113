-- ===== src/Rpc/Cluster/Tests.antt =====
-- Clients of the weights 5, 1 and 1.
use gd_rpc.Base.Int.{pos, ◌+ℤ◌, ◌-ℤ◌}
use gd_rpc.Base.{arith, ℕ, ◌≡◌, refl, [], ◌∷◌, some, map, get_elem?}
use gd_rpc.Rpc.Cluster.{Client, raise, next, calls, add}
use gd_rpc.Rpc.Cluster.Turns.{IsMost, sum_current, next_lem, pair, calls-pair}
use gd_rpc.Rpc.Cluster.Skipped.{nexts, seconds, twice, calls-nexts}
use gd_rpc.Rpc.Cluster.Bounds.{IsFair, AllWithin, nexts-AllWithin}

abbrev first : Client
first = record { weight = pos 5; current_weight = pos 0; client = 10 }

abbrev second : Client
second = record { weight = pos 1; current_weight = pos 0; client = 11 }

abbrev third : Client
third = record { weight = pos 1; current_weight = pos 0; client = 12 }

add-all : add third (add second (add first [])) ≡ first ∷ second ∷ third ∷ []
unfolding add
add-all = refl

next-first : (next (first ∷ second ∷ third ∷ [])).0 ≡ some 10
unfolding next ◌+ℤ◌ ◌-ℤ◌
next-first = refl

next_lem_example :
    let (picked, cs') = next (first ∷ second ∷ third ∷ []) in
    let raised = map raise (first ∷ second ∷ third ∷ []) in
    ((p : ℕ) × (x : Client) × (get_elem? raised p ≡ some x)
      × IsMost x.current_weight raised
      × (picked ≡ some x.client))
    × (sum_current cs' ≡ sum_current (first ∷ second ∷ third ∷ []))
next_lem_example = next_lem first second (third ∷ [])

-- Of two clients of one weight the first is never used.
calls-pair_three : calls 3 (pair 10 11) ≡ (some 11 ∷ some 11 ∷ some 11 ∷ [], pair 10 11)
calls-pair_three = calls-pair 3 10 11

calls-nexts_example :
    let (picks, cs') = nexts (twice 2) (first ∷ second ∷ third ∷ []) in
    calls 2 (first ∷ second ∷ third ∷ []) ≡ (seconds picks, cs')
calls-nexts_example = calls-nexts 2 first (second ∷ third ∷ [])

at_rest : IsFair 7 (first ∷ second ∷ third ∷ [])
unfolding ◌+ℤ◌
at_rest = record {
  some_weight = omega arith;
  weighs = refl;
  balanced = refl;
  above = (
    omega arith,
    omega arith,
    (omega arith, omega arith, (omega arith, omega arith, omega arith)),
  );
}

nexts-AllWithin_example :
    let cs' = (nexts 4 (first ∷ second ∷ third ∷ [])).1 in AllWithin 7 21 cs' × IsFair 7 cs'
nexts-AllWithin_example = nexts-AllWithin 4 7 (first ∷ second ∷ third ∷ []) at_rest
