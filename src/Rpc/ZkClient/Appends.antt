-- ===== src/Rpc/ZkClient/Appends.antt =====
-- What ZkClient::Append leaves in the nodes of a ZooKeeper that is in service, and what a client
-- reads there.
use gd_rpc.Base.{
  ℕ, ◌≡◌, ◌+◌, ◌≤◌, ◌<◌, refl, ap, ◌∙◌, List, [], ◌∷◌, ◌++◌, true, false, Bool, ◌&&◌, ◌||◌, not,
  ◌==◌, ◌^◌, sym, Option, none, some, arith, if◌then◌else◌, append_assoc, Option-cases, inl, inr,
  take, drop, length, ltb, length-append, length-take, take_all,
}
use gd_rpc.Base.Int.{ℤ}
use gd_rpc.Text.{bytes_eq, bytes_eq_self}
use gd_rpc.Text.Decimal.{print_int}
use gd_rpc.Rpc.ZkClient.{
  ok, no_node, Tree, written, Zookeeper, buffer_len, read_back, add_data, append, c_string,
  get_data, endpoint_line, publish,
}
use gd_rpc.Rpc.Endpoints.{endpoints}
use gd_rpc.Rpc.Endpoints.Parsing.{IsWhole, IsWhole-append, IsWhole-print_int, endpoints_ended}

abbrev pub has_slash : List ℕ → Bool
has_slash [] = false
has_slash (c ∷ cs) = c == b'/' || has_slash cs

abbrev pub is_some : Option (List ℕ) → Bool
is_some none = false
is_some (some v) = true

-- A path with one '/', in front: of a node of the root, which is always there and is not ephemeral.
abbrev pub is_below_root : List ℕ → Bool
is_below_root [] = false
is_below_root (c ∷ name) = c == b'/' && not (has_slash name)

-- Half of the 1 MB to which ZooKeeper limits a request.
abbrev pub max_data_len : ℕ
max_data_len = 2 ^ 19

-- The service is reached. Of the paths in `is_path`, which are well formed and open to the client, each
-- call answers by what the tree holds; a node of the root is made if it is missing, and data of less
-- than half of 1 MB are taken.
pub record IsUp (zk : Zookeeper) : Type 0 where
  pub is_path : List ℕ → Bool
  pub exists_found :
      (path v : List ℕ) (t : Tree)
      → is_path path ≡ true
      → t path ≡ some v
      → zk.zoo_exists path t ≡ ok
  pub exists_missing :
      (path : List ℕ) (t : Tree)
      → is_path path ≡ true
      → t path ≡ none
      → zk.zoo_exists path t ≡ no_node
  pub create_missing :
      (path v : List ℕ) (t : Tree)
      → is_path path ≡ true
      → is_below_root path ≡ true
      → length v < max_data_len
      → t path ≡ none
      → (zk.zoo_create path v t).0 ≡ ok
  pub get_found :
      (path v : List ℕ) (n : ℕ) (t : Tree)
      → is_path path ≡ true
      → t path ≡ some v
      → (zk.zoo_get path n t).0 ≡ ok
  pub set_found :
      (path u v : List ℕ) (t : Tree)
      → is_path path ≡ true
      → length v < max_data_len
      → t path ≡ some u
      → (zk.zoo_set path v t).0 ≡ ok

-- What a node holds after an append, by what it held before.
abbrev pub appended : Option (List ℕ) → List ℕ → List ℕ
appended none v = take buffer_len v ++ v
appended (some old) v = take buffer_len old ++ v

length-read_back :
    (old v : List ℕ)
    → length v + buffer_len < max_data_len
    → length (take buffer_len old ++ v) < max_data_len
length-read_back old v h =
    omega (arith, h, length-append (take buffer_len old) v, length-take buffer_len old)

module _ (zk : Zookeeper) (up : IsUp zk) (path v : List ℕ) (p : up.is_path path ≡ true)
    (m : length v + buffer_len < max_data_len) where
  read_back-found :
      (unset old : List ℕ) (t : Tree)
      → t path ≡ some old
      → read_back unset (zk.zoo_get path buffer_len t) ≡ take buffer_len old
  read_back-found unset old t h =
      rw (up.get_found path old buffer_len t p h)
        (zk.get_lem path old buffer_len t (up.get_found path old buffer_len t p h) h)

  add_data-code :
      (unset old : List ℕ) (t : Tree) → t path ≡ some old → (add_data zk unset path v t).0 ≡ ok
  add_data-code unset old t h =
      up.set_found path old (read_back unset (zk.zoo_get path buffer_len t) ++ v) t p
        (rw (read_back-found unset old t h) (length-read_back old v m)) h

  add_data-found :
      (unset old : List ℕ) (t : Tree)
      → t path ≡ some old
      → (add_data zk unset path v t).1 ≡ written t path (take buffer_len old ++ v)
  add_data-found unset old t h =
      zk.set_lem path (read_back unset (zk.zoo_get path buffer_len t) ++ v) t
        (add_data-code unset old t h)
      ∙ rw (read_back-found unset old t h) refl

  create-found :
      (t : Tree)
      → is_below_root path ≡ true
      → t path ≡ none
      → zk.zoo_create path v t ≡ (ok, written t path v)
  create-found t a h =
      let c : (zk.zoo_create path v t).0 ≡ ok =
        up.create_missing path v t p a (omega (arith, m)) h in
      λ i. (c i, zk.create_lem path v t c i)

  append-found :
      (unset old : List ℕ) (t : Tree)
      → t path ≡ some old
      → append zk unset path v t ≡ add_data zk unset path v t
  unfolding append
  append-found unset old t h = rw (up.exists_found path old t p h) refl

  append-missing :
      (unset : List ℕ) (t : Tree)
      → is_below_root path ≡ true
      → t path ≡ none
      → append zk unset path v t ≡ add_data zk unset path v (written t path v)
  unfolding append
  append-missing unset t a h = rw (up.exists_missing path t p h, create-found t a h) refl

  -- In a ZooKeeper that is in service, on a path that it takes, of a node that is there or is to be
  -- one of the root, and with data that leave 1024 bytes below half of 1 MB: `ZkClient::Append`
  -- succeeds, changes no other node, and leaves the data after the first 1024 bytes of what the node
  -- held; in a node that it had to create the data stand twice (their first 1024 bytes, then all of
  -- them).
  pub append_lem :
      (unset q : List ℕ) (t : Tree)
      → (is_some (t path) || is_below_root path) ≡ true
      → ((append zk unset path v t).0 ≡ ok)
        × ((append zk unset path v t).1 q
            ≡ (if bytes_eq path q then some (appended (t path) v) else t q))
  append_lem unset q t a = elim (Option-cases (t path)) [
    | inl n ↦
        let h : written t path v path ≡ some v = rw (bytes_eq_self path) refl in
        let e = append-missing unset t (sym (ap (λ o. is_some o || is_below_root path) n) ∙ a) n in
        (
          ap (λ r. r.0) e ∙ add_data-code unset v _ h,
          ap (λ r. r.1 q) e ∙ rw (add_data-found unset v (written t path v) h, n) (ground arith),
        )
    | inr (old, h) ↦ (
      ap (λ r. r.0) (append-found unset old t h) ∙ add_data-code unset old t h,
      ap (λ r. r.1 q) (append-found unset old t h) ∙ rw (add_data-found unset old t h, h) refl,
    )
  ]

-- The line without its end.
abbrev endpoint_text : List ℕ → ℤ → ℤ → List ℕ
endpoint_text ip port weight = ip ++ (b' ' ∷ (print_int port ++ (b' ' ∷ print_int weight)))

c_string-null : (s rest : List ℕ) → IsWhole 0 s → c_string (s ++ (0 ∷ rest)) ≡ some s
c_string-null [] rest h = refl
c_string-null (c ∷ cs) rest (h, hs) = rw (h, c_string-null cs rest hs) refl

IsWhole-endpoint_line :
    (ip : List ℕ) (port weight : ℤ) → IsWhole 0 ip → IsWhole 0 (endpoint_line ip port weight)
unfolding endpoint_line
IsWhole-endpoint_line ip port weight h = IsWhole-append 0 ip _ h (
  refl,
  IsWhole-append 0 (print_int port) _ (IsWhole-print_int 0 port refl refl) (
    refl,
    IsWhole-append 0 (print_int weight) _ (IsWhole-print_int 0 weight refl refl)
        (refl, omega arith),
  ),
)

endpoint_line-ended :
    (ip : List ℕ) (port weight : ℤ) (s : List ℕ)
    → endpoints (s ++ endpoint_line ip port weight) ≡ none
unfolding endpoint_line
endpoint_line-ended ip port weight s =
    let e : s ++ (ip ++ (b' ' ∷ (print_int port ++ (b' ' ∷ (print_int weight ++ (b'\n' ∷ []))))))
        ≡ (s ++ endpoint_text ip port weight) ++ (b'\n' ∷ []) =
      simp append_assoc in
    ap endpoints e ∙ endpoints_ended (s ++ endpoint_text ip port weight)

get_data-found :
    (zk : Zookeeper) (up : IsUp zk) (unset path s rest : List ℕ) (t : Tree)
    → up.is_path path ≡ true
    → t path ≡ some s
    → length s ≤ buffer_len
    → IsWhole 0 s
    → drop (length s) unset ≡ 0 ∷ rest
    → get_data zk unset path t ≡ some s
unfolding get_data
get_data-found zk up unset path s rest t p h n w u =
    let k = up.get_found path s buffer_len t p h in
    rw (k, zk.get_lem path s buffer_len t k h, take_all buffer_len s n, u) (c_string-null s rest w)

module _ (zk : Zookeeper) (up : IsUp zk) where
  -- Of a server with one service whose node is missing, in a ZooKeeper that is in service and takes its
  -- path, with a name of no '/', an address of no null byte and a line below the 32 bytes of its
  -- buffer: the node then holds the line twice, `ZkClient::GetData` reads it if a null byte follows in
  -- its buffer, and the constructor of `RpcCluster` takes an index out of range in what it gets.
  pub endpoints-publish :
      (unset memory rest ip name : List ℕ) (port weight : ℤ) (t : Tree)
      → up.is_path (b'/' ∷ name) ≡ true
      → has_slash name ≡ false
      → t (b'/' ∷ name) ≡ none
      → IsWhole 0 ip
      → length (endpoint_line ip port weight) < 32
      → drop (length (endpoint_line ip port weight) + length (endpoint_line ip port weight)) memory
        ≡ 0 ∷ rest
      → (t' : Tree) × (s : List ℕ) × (publish zk unset ip port weight (name ∷ []) t ≡ some t')
        × (t' (b'/' ∷ name) ≡ some s)
        × (get_data zk memory (b'/' ∷ name) t' ≡ some s)
        × (s ≡ endpoint_line ip port weight ++ endpoint_line ip port weight)
        × (endpoints s ≡ none)
  unfolding publish
  endpoints-publish unset memory rest ip name port weight t p a h w n m =
      let l = endpoint_line ip port weight in
      let wl : IsWhole 0 l = IsWhole-endpoint_line ip port weight w in
      let e : ltb (length l) 32 ≡ true = ground arith in
      let held : (append zk unset (b'/' ∷ name) l t).1 (b'/' ∷ name) ≡ some (l ++ l) =
        (append_lem zk up (b'/' ∷ name) l p (omega (arith, n)) unset (b'/' ∷ name) t
          (rw (h, a) refl)).1
        ∙ rw (bytes_eq_self name, h, take_all buffer_len l (omega (arith, n))) refl in
      (
        (append zk unset (b'/' ∷ name) l t).1,
        l ++ l,
        rw (e, publish) refl,
        held,
        get_data-found zk up memory (b'/' ∷ name) (l ++ l) rest _ p held
            (omega (arith, n, length-append l l)) (IsWhole-append 0 l l wl wl)
            (ap (λ k. drop k memory) (length-append l l) ∙ m),
        refl,
        endpoint_line-ended ip port weight l,
      )
