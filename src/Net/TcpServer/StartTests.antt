-- ===== src/Net/TcpServer/StartTests.antt =====
-- A server with two threads on port 80 of "1.2.3.4" that accepts a connection and loses it.
use gd_rpc.Base.{◌≡◌, ◌+◌, refl, List, [], ◌∷◌, ◌++◌, false, some, arith}
use gd_rpc.Text.Decimal.{print_nat}
use gd_rpc.Net.ThreadPool.{get_all_loops}
use gd_rpc.Net.InetAddress.{new_address, to_ip_port}
use gd_rpc.Net.SampleNet.{sample_ip, sample_net}
use gd_rpc.Net.TcpServer.{TcpServer, Effect, Event, accepts, removes, conn_name, run}
use gd_rpc.Net.TcpServer.Live.{Refines, live_run}
use gd_rpc.Net.TcpServer.Started.{nothing, started_server}
use gd_rpc.Net.TcpServer.Listening.{run-started}

abbrev script : List Event
script = accepts (some (4, 100)) ∷ removes 1 10 4 100 ∷ []

run-started_example :
    let address = sample_ip ++ (b':' ∷ print_nat 80) in
    let s = started_server false (λ i. 10 + i) 2 9 address (b's' ∷ []) 3 in
    let conns = conn_name s in
    let loops = get_all_loops s.thread_pool in
    (to_ip_port sample_net (new_address sample_net 80 sample_ip) ≡ some address)
    × ((fs : List Effect) × (s' : TcpServer) × (run script s ≡ some (fs, s'))
        × Refines conns loops s' (live_run conns loops script nothing))
run-started_example =
    run-started sample_net 80 sample_ip (b's' ∷ []) false (λ i. 10 + i) 2 9 3 script (omega arith)
      refl (omega arith) (omega arith)
