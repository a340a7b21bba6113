-- ===== src/Rpc/ZkClient.antt =====
-- ZkClient of gdrpc/rpc/zkClient.hpp and zkClient.cpp, and what RpcServer::Run of rpcServer.cpp
-- publishes through it. The ZooKeeper client library is a record of its four calls, with what they
-- do when they succeed. `unset` is what the memory of a local buffer holds before it is written.
pub mod Session
pub mod Starting
mod StartTests
pub mod Appends
mod Tests
use gd_rpc.Base.{
  ℕ, zero, suc, ◌≡◌, ◌≢◌, ◌+◌, ◌*◌, List, [], ◌∷◌, ◌++◌, Bool, true, false, Option, none, some,
  ◌==◌, if◌then◌else◌, take, drop, length, ltb,
}
use gd_rpc.Base.Int.{ℤ, pos}
use gd_rpc.Text.{bytes_eq}
use gd_rpc.Text.Decimal.{print_int}

-- ZOK, ZNONODE, and the other results.
pub data Code : Type 0 where
  ok no_node : Code
  failed : ℕ → Code

-- The data of the nodes by path.
abbrev pub Tree : Type 0
Tree = List ℕ → Option (List ℕ)

abbrev pub written : Tree → List ℕ → List ℕ → Tree
written t path v q = if bytes_eq path q then some v else t q

pub record Zookeeper : Type 0 where
  pub zoo_exists : List ℕ → Tree → Code
  pub zoo_create : List ℕ → List ℕ → Tree → Code × Tree
  -- With the size of the buffer; what it puts there.
  pub zoo_get : List ℕ → ℕ → Tree → Code × List ℕ
  pub zoo_set : List ℕ → List ℕ → Tree → Code × Tree
  pub create_lem :
      (path v : List ℕ) (t : Tree)
      → (zoo_create path v t).0 ≡ ok
      → (zoo_create path v t).1 ≡ written t path v
  pub get_lem :
      (path v : List ℕ) (n : ℕ) (t : Tree)
      → (zoo_get path n t).0 ≡ ok
      → t path ≡ some v
      → (zoo_get path n t).1 ≡ take n v
  pub set_lem :
      (path v : List ℕ) (t : Tree)
      → (zoo_set path v t).0 ≡ ok
      → (zoo_set path v t).1 ≡ written t path v

abbrev pub is_ok : Code → Bool
is_ok ok = true
is_ok _ = false

abbrev pub is_no_node : Code → Bool
is_no_node no_node = true
is_no_node _ = false

abbrev pub buffer_len : ℕ
buffer_len = 1024

-- A `zoo_get` that fails is only logged: the buffer goes on as it was, with its whole length.
abbrev pub read_back : List ℕ → Code × List ℕ → List ℕ
read_back unset (code, bytes) = if is_ok code then bytes else unset

-- The text up to the first null byte; none if there is none in the buffer.
abbrev pub c_string : List ℕ → Option (List ℕ)
c_string [] = none
c_string (c ∷ cs) =
    let rest = c_string cs in
    if c == 0 then some [] else elim rest [ none ↦ none | some s ↦ some (c ∷ s) ]

-- `return buffer`, whatever length `zoo_get` reported.
abbrev pub returned : List ℕ → Code × List ℕ → Option (List ℕ)
returned unset (code, bytes) =
    if is_ok code then c_string (bytes ++ drop (length bytes) unset) else some []

module _ (zk : Zookeeper) where
  abbrev pub add_data : List ℕ → List ℕ → List ℕ → Tree → Code × Tree
  add_data unset path v t = zk.zoo_set path (read_back unset (zk.zoo_get path buffer_len t) ++ v) t

  abbrev pub add_if : Code × Tree → List ℕ → List ℕ → List ℕ → Code × Tree
  add_if (code, t) unset path v = if is_ok code then add_data unset path v t else (code, t)

  abbrev pub created : Code → List ℕ → List ℕ → Tree → Code × Tree
  created code path v t = if is_no_node code then zk.zoo_create path v t else (code, t)

  unfoldable pub append : List ℕ → List ℕ → List ℕ → Tree → Code × Tree
  append unset path v t = add_if (created (zk.zoo_exists path t) path v t) unset path v

  unfoldable pub get_data : List ℕ → List ℕ → Tree → Option (List ℕ)
  get_data unset path t = returned unset (zk.zoo_get path buffer_len t)

-- `sprintf(data, "%s %d %d\n", …)`. None: more than `data[32]` holds.
unfoldable pub endpoint_line : List ℕ → ℤ → ℤ → List ℕ
unfolding print_int
endpoint_line ip port weight =
    ip ++ (b' ' ∷ (print_int port ++ (b' ' ∷ (print_int weight ++ (b'\n' ∷ [])))))

abbrev pub in_buffer : List ℕ → Option (List ℕ)
in_buffer s = if ltb (length s) 32 then some s else none

module _ (zk : Zookeeper) where
  -- The loop over `services_`, by their names.
  abbrev pub publish_all : List ℕ → List ℕ → List (List ℕ) → Tree → Tree
  publish_all unset v [] t = t
  publish_all unset v (name ∷ names) t =
      publish_all unset v names (append zk unset (b'/' ∷ name) v t).1

  unfoldable pub publish : List ℕ → List ℕ → ℤ → ℤ → List (List ℕ) → Tree → Option Tree
  unfolding endpoint_line append
  publish unset ip port weight names t = elim (in_buffer (endpoint_line ip port weight)) [
    | none ↦ none
    | some v ↦ some (publish_all unset v names t)
  ]
