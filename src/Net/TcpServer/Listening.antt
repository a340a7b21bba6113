-- ===== src/Net/TcpServer/Listening.antt =====
-- A server that is made with an InetAddress and started, from its first connection on.
use gd_rpc.Base.{ℕ, ◌≡◌, ◌<◌, ◌^◌, List, ◌∷◌, ◌++◌, Bool, true, some, length, arith}
use gd_rpc.Text.Decimal.{print_nat}
use gd_rpc.Net.ThreadPool.{get_all_loops}
use gd_rpc.Net.InetAddress.{Inet, new_address, to_ip_port}
use gd_rpc.Net.InetAddress.Texts.{new_address_lem}
use gd_rpc.Net.TcpServer.{TcpServer, Effect, Event, conn_name, run}
use gd_rpc.Net.TcpServer.Names.{id_limit}
use gd_rpc.Net.TcpServer.Live.{Refines, AllIds, live_run, run-Refines}
use gd_rpc.Net.TcpServer.Started.{nothing, started_server, started_server-Refines}

-- A server on a port below 2 ^ 16 of an ip of four numbers, with any number of threads, after its first
-- `start`: whatever it accepts and removes, as long as its ids fit an `int`, it never reads the pool out
-- of range, and its map holds exactly the connections accepted and not removed, each under the name
-- of its own id, which has the ip and the port in it, and on the loop whose turn it was.
pub run-started :
    (net : Inet) (port : ℕ) (ip name : List ℕ) (init_set : Bool) (start_loop : ℕ → ℕ)
    (n loop fd : ℕ) (es : List Event)
    → port < 2 ^ 16
    → net.is_dotted ip ≡ true
    → length es < id_limit
    → AllIds es
    → let address = ip ++ (b':' ∷ print_nat port) in
      let s = started_server init_set start_loop n loop address name fd in
      let conns = conn_name s in
      let loops = get_all_loops s.thread_pool in
      (to_ip_port net (new_address net port ip) ≡ some address)
      × ((fs : List Effect) × (s' : TcpServer) × (run es s ≡ some (fs, s'))
          × Refines conns loops s' (live_run conns loops es nothing))
run-started net port ip name init_set start_loop n loop fd es h d l i =
    let address = ip ++ (b':' ∷ print_nat port) in
    let s = started_server init_set start_loop n loop address name fd in
    let (_, _, e, k) = new_address_lem net port ip h d in
    (
      e,
      run-Refines (conn_name s) (get_all_loops s.thread_pool) es s nothing
          (started_server-Refines init_set start_loop n loop address name fd k) (omega (arith, l))
          i,
    )
