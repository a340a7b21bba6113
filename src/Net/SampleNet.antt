-- ===== src/Net/SampleNet.antt =====
-- A system of one address, "1.2.3.4", whose byte orders are the same.
use gd_rpc.Base.{ℕ, ◌≡◌, ◌<◌, ◌%◌, List, [], ◌∷◌, arith}
use gd_rpc.Text.{bytes_eq, bytes_eq_sound}
use gd_rpc.Net.InetAddress.{Inet}

abbrev pub sample_ip : List ℕ
sample_ip = b'1' ∷ b'.' ∷ b'2' ∷ b'.' ∷ b'3' ∷ b'.' ∷ b'4' ∷ []

pub port_kept : (p : ℕ) → p < 65536 → p % 65536 ≡ p
port_kept p h = grind (arith, h)

abbrev pub sample_net : Inet
sample_net = record {
  htons = λ p. p;
  ntohs = λ p. p % 65536;
  inet_addr = λ ip. 7;
  inet_ntop = λ a. sample_ip;
  is_dotted = bytes_eq sample_ip;
  htons_lem = port_kept;
  ntohs_lem = λ n. omega arith;
  ntop_short = λ a. omega arith;
  ntop_lem = λ ip h. bytes_eq_sound sample_ip ip h;
}
