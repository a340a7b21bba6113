-- ===== src/Rpc/Endpoints.antt =====
-- The constructor of RpcCluster of gdrpc/rpc/clusterCli.hpp: the endpoints that it reads from the data
-- of a service's node.
pub mod Parsing
mod Tests
use gd_rpc.Base.{
  ℕ, zero, suc, ◌+◌, ◌-◌, ◌%◌, List, [], ◌∷◌, ◌++◌, Bool, true, false, Option, none, some, ◌==◌,
  if◌then◌else◌,
}
use gd_rpc.Base.Int.{ℤ, pos, negsuc}
use gd_rpc.Text.{insert_text}
use gd_rpc.Text.Decimal.{atoi}

-- A client: the key in `clientMap_`, the two arguments of its InetAddress, and the weight as it was
-- read, for `Client`.
pub record Endpoint : Type 0 where
  pub key : List ℕ
  pub port : ℕ
  pub ip : List ℕ
  pub weight : List ℕ

abbrev pub grow : ℕ → List (List ℕ) → List (List ℕ)
grow c [] = (c ∷ []) ∷ []
grow c (p ∷ ps) = (c ∷ p) ∷ ps

-- The pieces between separators; at least one.
unfoldable pub pieces : ℕ → List ℕ → List (List ℕ)
pieces sep [] = [] ∷ []
pieces sep (c ∷ cs) = let rest = pieces sep cs in if c == sep then [] ∷ rest else grow c rest

-- `std::views::split`: nothing from an empty text.
unfoldable pub split : ℕ → List ℕ → List (List ℕ)
unfolding pieces
split sep [] = []
split sep (c ∷ cs) = pieces sep (c ∷ cs)

-- `while (std::getline(ss, t, ' '))`: no piece after a separator that ends the text.
abbrev pub drop_last_empty : List (List ℕ) → List (List ℕ)
drop_last_empty [] = []
drop_last_empty ([] ∷ []) = []
drop_last_empty (p ∷ ps) = p ∷ drop_last_empty ps

unfoldable pub fields : List ℕ → List (List ℕ)
unfolding pieces
fields s = drop_last_empty (pieces b' ' s)

-- The conversion to `uint16_t`.
abbrev pub to_uint16 : ℤ → ℕ
to_uint16 (pos n) = n % 65536
to_uint16 (negsuc n) = (65536 - suc n % 65536) % 65536

-- `tmp[0]`, `tmp[1]` and `tmp[2]`. None: an index is out of range.
abbrev pub endpoint_of : List (List ℕ) → Option Endpoint
endpoint_of (a ∷ b ∷ c ∷ _) =
    some (record { key = a ++ (b':' ∷ b); port = to_uint16 (atoi a); ip = b; weight = c })
endpoint_of _ = none

abbrev pub parse_all : List (List ℕ) → Option (List Endpoint)
parse_all [] = some []
parse_all (l ∷ ls) = elim (endpoint_of (fields l)) [
  | none ↦ none
  | some e ↦ elim (parse_all ls) [ none ↦ none | some es ↦ some (e ∷ es) ]
]

-- The clients in the order in which they go to the load balancer.
unfoldable pub endpoints : List ℕ → Option (List Endpoint)
unfolding split fields atoi
endpoints s = parse_all (split b'\n' s)

abbrev pub client_map : List Endpoint → List (List ℕ × Endpoint) → List (List ℕ × Endpoint)
client_map [] m = m
client_map (e ∷ es) m = client_map es (insert_text e.key e m)
