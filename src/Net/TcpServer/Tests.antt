-- ===== src/Net/TcpServer/Tests.antt =====
-- A server with two threads that accepts three connections and loses the second.
use gd_rpc.Base.{ℕ, ◌≡◌, ◌+◌, refl, List, [], ◌∷◌, Option, some, none, true, false, arith, map}
use gd_rpc.Text.Decimal.{print_nat}
use gd_rpc.Net.ThreadPool.{ThreadPool, new_pool, get_next_loop, get_all_loops}
use gd_rpc.Net.ThreadPool
use gd_rpc.Net.TcpServer.{
  ServerConnection, TcpServer, Effect, listened, reading_enabled, new_server, set_thread_num, start,
  acceptor_listen, conn_name, new_connection, handle_read, remove_connection_in_loop, Event,
  accepts, removes, step, run,
}
use gd_rpc.Net.TcpServer.Live.{Live, Refines, live_run, run-Refines}

-- "s", listening on "a".
abbrev server : TcpServer
server = record {
  loop = 9;
  address = b'a' ∷ [];
  name = b's' ∷ [];
  acceptor = record { accept_fd = 3; listenning = true; callback_set = true };
  thread_pool = record {
    base_loop = 9;
    started = true;
    num_threads = 2;
    next = 0;
    loops = 10 ∷ 11 ∷ [];
  };
  next_conn_id = 1;
  started = 1;
  connections = [];
}

start-server :
    start false (λ i. 10 + i) (set_thread_num 2 (new_server 9 (b'a' ∷ []) (b's' ∷ []) 3).1)
    ≡ (listened 3 ∷ reading_enabled 3 ∷ [], server)
unfolding start set_thread_num new_server ThreadPool.set_thread_num ThreadPool.start acceptor_listen
    new_pool
start-server = refl

abbrev script : List Event
script =
    accepts (some (4, 100))
    ∷ accepts (some (5, 101))
    ∷ accepts none
    ∷ removes 2 11 5 101
    ∷ accepts (some (5, 102))
    ∷ []

abbrev named : ℕ → ℕ → ℕ → ℕ → ServerConnection
named digit l fd peer = record {
  name = b's' ∷ b'-' ∷ b'a' ∷ b'#' ∷ digit ∷ [];
  loop = l;
  fd = fd;
  peer = peer;
}

abbrev loops_after : Option (List Effect × TcpServer) → List ServerConnection
loops_after none = []
loops_after (some (es, s)) = map (λ e. e.1) s.connections

run-script : loops_after (run script server) ≡ named b'1' 10 4 100 ∷ named b'3' 10 5 102 ∷ []
unfolding run step handle_read new_connection get_next_loop conn_name remove_connection_in_loop
    print_nat
run-script = refl

abbrev nothing : Live
nothing = record { accepted = 0; live = [] }

server-Refines : Refines (conn_name server) (10 ∷ 11 ∷ []) server nothing
unfolding get_all_loops
server-Refines = record {
  in_range = omega arith;
  same_loops = refl;
  in_turn = refl;
  same_id = refl;
  names = λ i. refl;
  short = omega arith;
  called = refl;
  same_map = λ i h. refl;
  unused = λ i h. refl;
}

run-Refines_sample :
    (fs : List Effect) × (s' : TcpServer) × (run script server ≡ some (fs, s'))
    × Refines
        (conn_name server)
        (10 ∷ 11 ∷ [])
        s'
        (live_run (conn_name server) (10 ∷ 11 ∷ []) script nothing)
run-Refines_sample =
    run-Refines (conn_name server) (10 ∷ 11 ∷ []) script server nothing server-Refines (omega arith)
      (omega arith)
