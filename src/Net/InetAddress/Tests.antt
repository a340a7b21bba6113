-- ===== src/Net/InetAddress/Tests.antt =====
-- Port 80 of "1.2.3.4".
use gd_rpc.Base.{◌≡◌, ◌≤◌, ◌++◌, ◌∷◌, some, length, arith, refl}
use gd_rpc.Text.Decimal.{print_nat}
use gd_rpc.Net.InetAddress.{new_address, to_ip, to_port, to_ip_port}
use gd_rpc.Net.InetAddress.Texts.{new_address_lem}
use gd_rpc.Net.SampleNet.{sample_ip, sample_net}

new_address_lem_example :
    let a = new_address sample_net 80 sample_ip in
    (to_port sample_net a ≡ 80)
    × (to_ip sample_net a ≡ some sample_ip)
    × (to_ip_port sample_net a ≡ some (sample_ip ++ (b':' ∷ print_nat 80)))
    × (length (sample_ip ++ (b':' ∷ print_nat 80)) ≤ 21)
new_address_lem_example = new_address_lem sample_net 80 sample_ip (omega arith) refl
