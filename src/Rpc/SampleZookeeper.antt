-- ===== src/Rpc/SampleZookeeper.antt =====
-- A tree in memory that answers as the ZooKeeper library documents.
use gd_rpc.Base.{ℕ, ◌≡◌, refl, List, [], ◌∷◌, Bool, false, Option, none, some, take}
use gd_rpc.Rpc.ZkClient.{Code, ok, no_node, failed, Tree, written, Zookeeper}
use gd_rpc.Rpc.ZkClient.Appends.{IsUp, is_below_root}

abbrev pub exists_code : Option (List ℕ) → Code
exists_code none = no_node
exists_code (some v) = ok

abbrev pub create_in : Option (List ℕ) → List ℕ → List ℕ → Tree → Code × Tree
create_in none path v t = (ok, written t path v)
create_in (some u) path v t = (failed 110, t)

abbrev pub get_in : Option (List ℕ) → ℕ → Code × List ℕ
get_in none n = (no_node, [])
get_in (some v) n = (ok, take n v)

abbrev pub set_in : Option (List ℕ) → List ℕ → List ℕ → Tree → Code × Tree
set_in none path v t = (no_node, t)
set_in (some u) path v t = (ok, written t path v)

pub create_in-ok :
    (o : Option (List ℕ)) (path v : List ℕ) (t : Tree)
    → (create_in o path v t).0 ≡ ok
    → (create_in o path v t).1 ≡ written t path v
create_in-ok none path v t h = refl
create_in-ok (some u) path v t h = cc

pub get_in-ok :
    (o : Option (List ℕ)) (v : List ℕ) (n : ℕ)
    → (get_in o n).0 ≡ ok
    → o ≡ some v
    → (get_in o n).1 ≡ take n v
get_in-ok none v n h k = cc
get_in-ok (some u) v n h k = cc

pub set_in-ok :
    (o : Option (List ℕ)) (path v : List ℕ) (t : Tree)
    → (set_in o path v t).0 ≡ ok
    → (set_in o path v t).1 ≡ written t path v
set_in-ok none path v t h = cc
set_in-ok (some u) path v t h = refl

abbrev pub memory : Zookeeper
memory = record {
  zoo_exists = λ path t. exists_code (t path);
  zoo_create = λ path v t. create_in (t path) path v t;
  zoo_get = λ path n t. get_in (t path) n;
  zoo_set = λ path v t. set_in (t path) path v t;
  create_lem = λ path v t h. create_in-ok (t path) path v t h;
  get_lem = λ path v n t h k. get_in-ok (t path) v n h k;
  set_lem = λ path v t h. set_in-ok (t path) path v t h;
}

-- It takes the paths of the root's nodes.
abbrev has_name : List ℕ → Bool
has_name (c ∷ d ∷ name) = is_below_root (c ∷ d ∷ name)
has_name _ = false

abbrev pub memory-IsUp : IsUp memory
memory-IsUp = record {
  is_path = has_name;
  exists_found = λ path v t p h. rw h refl;
  exists_missing = λ path t p h. rw h refl;
  create_missing = λ path v t p a m h. rw h refl;
  get_found = λ path v n t p h. rw h refl;
  set_found = λ path u v t p m h. rw h refl;
}

abbrev pub empty_tree : Tree
empty_tree q = none
