-- ===== src/Net/TcpServer/Started.antt =====
-- A server that was just started is in step with the connections that it accepted: none.
use gd_rpc.Base.{ℕ, zero, suc, ◌≡◌, ◌≤◌, ◌<◌, ◌%◌, refl, List, [], Bool, arith, length}
use gd_rpc.Net.ThreadPool
use gd_rpc.Net.ThreadPool.{get_all_loops, all_of, start_threads}
use gd_rpc.Net.TcpServer.{TcpServer, new_server, set_thread_num, start, acceptor_listen, conn_name}
use gd_rpc.Net.TcpServer.Live.{Live, Refines}

abbrev pub nothing : Live
nothing = record { accepted = 0; live = [] }

-- A server with `n` threads after its first `start`.
unfoldable pub started_server : Bool → (ℕ → ℕ) → ℕ → ℕ → List ℕ → List ℕ → ℕ → TcpServer
unfolding start set_thread_num new_server
started_server init_set start_loop n loop address name fd =
    (start init_set start_loop (set_thread_num n (new_server loop address name fd).1)).1

some_loops :
    (start_loop : ℕ → ℕ) (n base : ℕ) → 0 < length (all_of (start_threads start_loop 0 n) base)
some_loops start_loop zero base = omega arith
some_loops start_loop (suc n) base = omega arith

zero_mod : (n : ℕ) → 0 < n → 0 ≡ 0 % n
zero_mod n h = grind arith

pub started_server-Refines :
    (init_set : Bool) (start_loop : ℕ → ℕ) (n loop : ℕ) (address name : List ℕ) (fd : ℕ)
    → length address ≤ 21
    → let s = started_server init_set start_loop n loop address name fd in
      Refines (conn_name s) (get_all_loops s.thread_pool) s nothing
unfolding started_server start set_thread_num new_server ThreadPool.set_thread_num ThreadPool.start
    acceptor_listen get_all_loops
started_server-Refines init_set start_loop n loop address name fd h = record {
  in_range = some_loops start_loop n loop;
  same_loops = refl;
  in_turn = zero_mod _ (some_loops start_loop n loop);
  same_id = refl;
  names = λ i. refl;
  short = h;
  called = refl;
  same_map = λ i k. refl;
  unused = λ i k. refl;
}
