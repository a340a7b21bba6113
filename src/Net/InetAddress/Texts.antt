-- ===== src/Net/InetAddress/Texts.antt =====
-- The texts of an address, and how long they are.
use gd_rpc.Base.{
  ℕ, ◌≡◌, ◌<◌, ◌≤◌, ◌^◌, ap, ◌∙◌, List, ◌∷◌, ◌++◌, true, some, length, length-append, arith,
}
use gd_rpc.Text.Decimal.{print_nat, length-print_nat}
use gd_rpc.Net.InetAddress.{Inet, Sockaddr, in_buffer, new_address, to_ip, to_port, to_ip_port}

in_buffer-some : (s : List ℕ) → length s < 64 → in_buffer s ≡ some s
in_buffer-some s h = ground (arith, h)

module _ (net : Inet) where
  -- The text of the address and the port of a socket address.
  abbrev pub text_of : Sockaddr → List ℕ
  text_of a = net.inet_ntop a.sin_addr ++ (b':' ∷ print_nat (net.ntohs a.sin_port))

  pub length-text_of : (a : Sockaddr) → length (text_of a) ≤ 21
  length-text_of a = omega (
    arith,
    length-append (net.inet_ntop a.sin_addr) (b':' ∷ print_nat (net.ntohs a.sin_port)),
    net.ntop_short a.sin_addr,
    length-print_nat (net.ntohs a.sin_port) 4 (omega (arith, net.ntohs_lem a.sin_port)),
  )

  pub to_ip_port_lem : (a : Sockaddr) → to_ip_port net a ≡ some (text_of a)
  unfolding to_ip_port
  to_ip_port_lem a = in_buffer-some (text_of a) (omega (arith, length-text_of a))

  -- The address of a port below 2 ^ 16 and of an ip of four numbers gives back both, its text is the ip,
  -- a colon and the port, and no buffer is overrun: that text has at most 21 bytes.
  pub new_address_lem :
      (port : ℕ) (ip : List ℕ)
      → port < 2 ^ 16
      → net.is_dotted ip ≡ true
      → let a = new_address net port ip in
        (to_port net a ≡ port)
        × (to_ip net a ≡ some ip)
        × (to_ip_port net a ≡ some (ip ++ (b':' ∷ print_nat port)))
        × (length (ip ++ (b':' ∷ print_nat port)) ≤ 21)
  unfolding new_address to_port to_ip
  new_address_lem port ip h d =
      let a = new_address net port ip in
      let e = net.htons_lem port h in
      let f = net.ntop_lem ip d in
      let t : text_of a ≡ ip ++ (b':' ∷ print_nat port) = λ i. f i ++ (b':' ∷ print_nat (e i)) in
      (
        e,
        in_buffer-some (net.inet_ntop (net.inet_addr ip))
              (omega (arith, net.ntop_short (net.inet_addr ip)))
            ∙ ap some f,
        to_ip_port_lem a ∙ ap some t,
        omega (arith, ap length t, length-text_of a),
      )
