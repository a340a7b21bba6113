-- ===== src/Rpc/Cluster.antt =====
-- The load balancing of gdrpc/rpc/clusterCli.hpp: `Client`, `RoundRobin` and `RpcCluster::call`. A
-- client is the pointer to it; the arithmetic of `int` is that of the integers. `Next` is written for
-- more than the header declares: it reads and sets a `currentWeight_`, which `Client` does not have
-- and nothing initialises, and it indexes a `std::list`. The model is of `Next` as it is written: the
-- field is `current_weight`, its first values are arguments, and indexing is by position.
pub mod Turns
pub mod Skipped
pub mod Bounds
mod Tests
use gd_rpc.Base.Int.{ℤ, pos, ◌+ℤ◌, ◌-ℤ◌, ltb_ℤ}
use gd_rpc.Base.{
  ℕ, zero, suc, List, [], ◌∷◌, ◌++◌, Option, none, some, if◌then◌else◌, get_elem?, replicate,
}

pub record Client : Type 0 where
  pub weight : ℤ
  -- What `Next` calls `currentWeight_`; not a member of the class.
  pub current_weight : ℤ
  pub client : ℕ

unfoldable pub add : Client → List Client → List Client
add c cs = cs ++ (c ∷ [])

abbrev pub raise : Client → Client
raise c = record c { current_weight = c.current_weight +ℤ c.weight }

-- The loop of `Next` from the `i`-th element on, where `p` points to an element before it, whose
-- weight is now `best`: the elements, `p` and `total`.
abbrev pub scan : ℕ → ℕ → ℤ → ℤ → List Client → List Client × ℕ × ℤ
scan i p best total [] = ([], p, total)
scan i p best total (c ∷ cs) =
    let c' = raise c in
    let wins = ltb_ℤ best c'.current_weight in
    let (cs', p', total') =
      scan (suc i) (if wins then i else p) (if wins then c'.current_weight else best)
        (total +ℤ c.weight) cs in
    (c' ∷ cs', p', total')

-- `p->currentWeight_ -= total`
abbrev pub lower : ℕ → ℤ → List Client → List Client
lower p total [] = []
lower zero total (c ∷ cs) = record c { current_weight = c.current_weight -ℤ total } ∷ cs
lower (suc p) total (c ∷ cs) = c ∷ lower p total cs

abbrev pub client_at : List Client → ℕ → Option ℕ
client_at cs p = elim (get_elem? cs p) [ none ↦ none | some c ↦ some c.client ]

-- The first element is raised before it is compared with itself, so the loop goes on from the second
-- with `p` at the first.
abbrev pub scan_all : Client → List Client → List Client × ℕ × ℤ
scan_all c cs =
    let (cs', p, total) = scan 1 0 (raise c).current_weight (pos 0 +ℤ c.weight) cs in
    (raise c ∷ cs', p, total)

-- The null pointer is `none`.
unfoldable pub next : List Client → Option ℕ × List Client
next [] = (none, [])
next (c ∷ []) = (some c.client, c ∷ [])
next (c ∷ d ∷ cs) =
    let (cs', p, total) = scan_all c (d ∷ cs) in
    let cs'' = lower p total cs' in (client_at cs'' p, cs'')

-- `call` takes the next client to test it and then the next one to use it.
abbrev pub call_if : Option ℕ → List Client → Option ℕ × List Client
call_if none cs = (none, cs)
call_if (some _) cs = next cs

unfoldable pub call : List Client → Option ℕ × List Client
call cs = let (tested, cs') = next cs in call_if tested cs'

unfoldable pub calls : ℕ → List Client → List (Option ℕ) × List Client
calls zero cs = ([], cs)
calls (suc n) cs = let (c, cs') = call cs in let (rest, cs'') = calls n cs' in (c ∷ rest, cs'')
