-- ===== src/Rpc/Serving/Whole.antt =====
-- What RpcServer::Run does up to its loop, from its own ip and port on.
use gd_rpc.Base.{
  ℕ, ◌≡◌, ◌<◌, ◌^◌, refl, ap, ◌∙◌, List, [], ◌∷◌, ◌++◌, true, false, none, some, length, arith,
}
use gd_rpc.Base.Int.{ℤ, pos}
use gd_rpc.Text.Decimal.{print_nat}
use gd_rpc.Rpc.ZkClient.{Tree, Zookeeper, endpoint_line, in_buffer, publish, publish_all}
use gd_rpc.Rpc.Endpoints.{to_uint16}
use gd_rpc.Net.ThreadPool
use gd_rpc.Net.ThreadPool.{get_all_loops}
use gd_rpc.Net.InetAddress.{Inet, new_address, to_ip_port}
use gd_rpc.Net.TcpServer.{
  bound, listened, reading_enabled, new_server, set_thread_num, start, acceptor_listen,
}
use gd_rpc.Net.TcpServer.Started.{started_server}
use gd_rpc.Net.InetAddress.Texts.{new_address_lem}
use gd_rpc.Rpc.Serving.{server_name, of_server, publishes, run_server}

publish-fits :
    (zk : Zookeeper) (unset ip : List ℕ) (port weight : ℤ) (names : List (List ℕ)) (t : Tree)
    → length (endpoint_line ip port weight) < 32
    → publish zk unset ip port weight names t
      ≡ some (publish_all zk unset (endpoint_line ip port weight) names t)
unfolding publish
publish-fits zk unset ip port weight names t h =
    let e : in_buffer (endpoint_line ip port weight) ≡ some (endpoint_line ip port weight) =
      ground (arith, h) in
    ap (λ o. elim o [ none ↦ none | some v ↦ some (publish_all zk unset v names t) ]) e

port_kept : (port : ℕ) → port < 2 ^ 16 → to_uint16 (pos port) ≡ port
port_kept port h = grind (arith, h)

-- A server on a port below 2 ^ 16 of an ip of four numbers, whose line is below the 32 bytes of its
-- buffer: `Run` binds its socket, then gives that line to `Append` for each service, one after the
-- other, and only then listens, and it comes to its loop with fifteen loops besides.
pub run_server_lem :
    (zk : Zookeeper) (net : Inet) (unset : List ℕ) (start_loop : ℕ → ℕ) (loop fd port : ℕ)
    (ip : List ℕ) (weight : ℤ) (names : List (List ℕ)) (t : Tree)
    → port < 2 ^ 16
    → net.is_dotted ip ≡ true
    → length (endpoint_line ip (pos port) weight) < 32
    → let s =
        started_server false start_loop 15 loop (ip ++ (b':' ∷ print_nat port)) server_name fd in
      (run_server zk net unset start_loop loop fd ip (pos port) weight names t
        ≡ some (
          publish_all zk unset (endpoint_line ip (pos port) weight) names t,
          of_server (bound fd)
              ∷ (publishes names
                  ++ (of_server (listened fd) ∷ of_server (reading_enabled fd) ∷ [])),
          s,
        ))
      × (length (get_all_loops s.thread_pool) ≡ 15)
unfolding run_server started_server new_server set_thread_num start acceptor_listen get_all_loops
    ThreadPool.set_thread_num ThreadPool.start ThreadPool.new_pool
run_server_lem zk net unset start_loop loop fd port ip weight names t h d l =
    let address = ip ++ (b':' ∷ print_nat port) in
    let (_, _, e, k) = new_address_lem net port ip h d in
    let a : to_ip_port net (new_address net (to_uint16 (pos port)) ip) ≡ some address =
      ap (λ p. to_ip_port net (new_address net p ip)) (port_kept port h) ∙ e in
    (rw (a, publish-fits zk unset ip (pos port) weight names t l) refl, refl)
