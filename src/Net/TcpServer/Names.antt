-- ===== src/Net/TcpServer/Names.antt =====
-- The names of connections tell them apart.
use gd_rpc.Base.{
  ℕ, ◌≡◌, ◌≤◌, ◌<◌, sym, ◌∙◌, List, [], ◌∷◌, ◌++◌, arith, length, length-append, take, take_all,
  ◌==◌,
}
use gd_rpc.Text.{bytes_eq, bytes_eq_iff}
use gd_rpc.Text.Decimal.{print_nat, print_nat_inj, length-print_nat}
use gd_rpc.Net.TcpServer.{TcpServer, conn_name}

-- `nextConnId_` is an `int`.
abbrev pub id_limit : ℕ
id_limit = 2147483648

append_cancel : (xs ys zs : List ℕ) → xs ++ ys ≡ xs ++ zs → ys ≡ zs
append_cancel [] ys zs e = e
append_cancel (x ∷ xs) ys zs e = append_cancel xs ys zs (cc)

tail_eq : (x : ℕ) (ys zs : List ℕ) → x ∷ ys ≡ x ∷ zs → ys ≡ zs
tail_eq x ys zs e = cc

-- The longest address is "255.255.255.255:65535".
fits :
    (s : TcpServer) (i : ℕ)
    → length s.address ≤ 21
    → i < id_limit
    → take 63 (b'-' ∷ (s.address ++ (b'#' ∷ print_nat i)))
      ≡ b'-' ∷ (s.address ++ (b'#' ∷ print_nat i))
fits s i h l = take_all 63 (b'-' ∷ (s.address ++ (b'#' ∷ print_nat i))) (
    omega (arith, length-append s.address (b'#' ∷ print_nat i), length-print_nat i 9 (omega arith)))

pub conn_name_inj :
    (s : TcpServer) (i j : ℕ)
    → length s.address ≤ 21
    → i < id_limit
    → j < id_limit
    → conn_name s i ≡ conn_name s j
    → i ≡ j
unfolding conn_name
conn_name_inj s i j h li lj e =
    let cut = append_cancel s.name _ _ e in
    let whole = sym (fits s i h li) ∙ cut ∙ fits s j h lj in
    print_nat_inj i j (tail_eq b'#' _ _ (append_cancel s.address _ _ (tail_eq b'-' _ _ whole)))

pub bytes_eq-conn_name :
    (s : TcpServer) (i j : ℕ)
    → length s.address ≤ 21
    → i < id_limit
    → j < id_limit
    → bytes_eq (conn_name s i) (conn_name s j) ≡ (i == j)
bytes_eq-conn_name s i j h li lj =
    ground (arith, bytes_eq_iff (conn_name s i) (conn_name s j), conn_name_inj s i j h li lj)
