-- ===== src/Rpc/ZkClient/Tests.antt =====
-- A tree in memory that answers as the library documents, and one server on it.
use gd_rpc.Base.{
  ℕ, ◌≡◌, refl, List, [], ◌∷◌, ◌++◌, ◌<◌, ◌+◌, length, drop, none, some, replicate, arith,
}
use gd_rpc.Base.Int.{pos}
use gd_rpc.Rpc.ZkClient.{ok, Tree, append, get_data, publish, endpoint_line}
use gd_rpc.Rpc.ZkClient.Appends.{append_lem, endpoints-publish}
use gd_rpc.Rpc.Endpoints.{endpoints}
use gd_rpc.Rpc.SampleZookeeper.{memory, memory-IsUp, empty_tree}

-- A line of nine bytes, twice in the node.
published :
    elim (publish memory [] (b'h' ∷ []) (pos 80) (pos 5) ((b'S' ∷ []) ∷ []) empty_tree) [
      | none ↦ none
      | some t ↦ t (b'/' ∷ b'S' ∷ [])
    ]
    ≡ some (
        b'h' ∷ b' ' ∷ b'8' ∷ b'0' ∷ b' ' ∷ b'5' ∷ b'\n' ∷ b'h' ∷ b' ' ∷ b'8' ∷ b'0' ∷ b' ' ∷ b'5'
        ∷ b'\n' ∷ [])
unfolding publish append endpoint_line
published = refl

append_lem_example :
    ((append memory [] (b'/' ∷ b'S' ∷ []) (b'x' ∷ []) empty_tree).0 ≡ ok)
    × ((append memory [] (b'/' ∷ b'S' ∷ []) (b'x' ∷ []) empty_tree).1 (b'/' ∷ b'S' ∷ [])
        ≡ some (b'x' ∷ b'x' ∷ []))
append_lem_example =
    append_lem memory memory-IsUp (b'/' ∷ b'S' ∷ []) (b'x' ∷ []) refl (omega arith) []
      (b'/' ∷ b'S' ∷ []) empty_tree refl

abbrev zeros : ℕ → List ℕ
zeros n = replicate n 0

line_short : length (endpoint_line (b'h' ∷ []) (pos 80) (pos 5)) < 32
unfolding endpoint_line
line_short = omega arith

unset :
    drop
      (length (endpoint_line (b'h' ∷ []) (pos 80) (pos 5))
        + length (endpoint_line (b'h' ∷ []) (pos 80) (pos 5)))
      (zeros 1024)
    ≡ 0 ∷ zeros 1009
unfolding endpoint_line
unset = refl

endpoints-publish_example :
    (t' : Tree) × (s : List ℕ) × (publish memory []
        (b'h' ∷ [])
        (pos 80)
        (pos 5)
        ((b'S' ∷ []) ∷ [])
        empty_tree
      ≡ some t')
    × (t' (b'/' ∷ b'S' ∷ []) ≡ some s)
    × (get_data memory (zeros 1024) (b'/' ∷ b'S' ∷ []) t' ≡ some s)
    × (s ≡ endpoint_line (b'h' ∷ []) (pos 80) (pos 5) ++ endpoint_line (b'h' ∷ []) (pos 80) (pos 5))
    × (endpoints s ≡ none)
endpoints-publish_example =
    endpoints-publish memory memory-IsUp [] (zeros 1024) (zeros 1009) (b'h' ∷ []) (b'S' ∷ [])
      (pos 80) (pos 5) empty_tree refl refl refl (refl, omega arith) line_short unset
