-- ===== src/Net/InetAddress.antt =====
-- InetAddress of gdrpc/net/inet_address.hpp and inet_address.cpp. The byte orders and the texts of
-- addresses are the system's: a record of its calls, with what they do. `is_dotted` tells the texts of
-- four numbers with dots between, as `inet_ntop` writes them.
pub mod Texts
mod Tests
use gd_rpc.Base.{
  ℕ, ◌≡◌, ◌<◌, ◌≤◌, ◌^◌, List, [], ◌∷◌, ◌++◌, Bool, true, Option, none, some, ltb, length,
  if◌then◌else◌,
}
use gd_rpc.Text.Decimal.{print_nat}

pub record Inet : Type 0 where
  pub htons : ℕ → ℕ
  pub ntohs : ℕ → ℕ
  pub inet_addr : List ℕ → ℕ
  pub inet_ntop : ℕ → List ℕ
  pub is_dotted : List ℕ → Bool
  pub htons_lem : (port : ℕ) → port < 2 ^ 16 → ntohs (htons port) ≡ port
  pub ntohs_lem : (n : ℕ) → ntohs n < 2 ^ 16
  pub ntop_short : (addr : ℕ) → length (inet_ntop addr) ≤ 15
  pub ntop_lem : (ip : List ℕ) → is_dotted ip ≡ true → inet_ntop (inet_addr ip) ≡ ip

pub data Family : Type 0 where
  unspecified inet : Family

-- `sockaddr_in`
pub record Sockaddr : Type 0 where
  pub sin_family : Family
  pub sin_port : ℕ
  pub sin_addr : ℕ

-- After `memset`.
abbrev pub no_address : Sockaddr
no_address = record { sin_family = unspecified; sin_port = 0; sin_addr = 0 }

-- What `buf[64]` holds with its end; none if it is overrun.
abbrev pub in_buffer : List ℕ → Option (List ℕ)
in_buffer s = if ltb (length s) 64 then some s else none

module _ (net : Inet) where
  unfoldable pub new_address : ℕ → List ℕ → Sockaddr
  new_address port ip = record no_address {
    sin_family = inet;
    sin_port = net.htons port;
    sin_addr = net.inet_addr ip;
  }

  unfoldable pub to_ip : Sockaddr → Option (List ℕ)
  to_ip a = in_buffer (net.inet_ntop a.sin_addr)

  unfoldable pub to_port : Sockaddr → ℕ
  to_port a = net.ntohs a.sin_port

  -- `sprintf(buf + end, ":%u", port)`
  unfoldable pub to_ip_port : Sockaddr → Option (List ℕ)
  unfolding print_nat
  to_ip_port a = in_buffer (net.inet_ntop a.sin_addr ++ (b':' ∷ print_nat (net.ntohs a.sin_port)))
