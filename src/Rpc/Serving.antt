-- ===== src/Rpc/Serving.antt =====
-- RpcServer::Run and onConnection of gdrpc/rpc/rpcServer.cpp: the server publishes its services and
-- starts a TcpServer on the address of its ip and port.
pub mod Whole
mod Tests
use gd_rpc.Base.{
  ℕ, ◌≡◌, ◌≤◌, refl, List, [], ◌∷◌, ◌++◌, Bool, false, Option, none, some, if◌then◌else◌, length,
}
use gd_rpc.Base.Int.{ℤ}
use gd_rpc.Rpc.ZkClient.{Tree, Zookeeper, publish}
use gd_rpc.Net.ThreadPool.{get_all_loops}
use gd_rpc.Net.TcpServer
use gd_rpc.Net.TcpServer.{TcpServer, new_server, set_thread_num, start}
use gd_rpc.Net.InetAddress.{Inet, new_address, to_ip_port}
use gd_rpc.Rpc.Endpoints.{to_uint16}

-- "RpcServer"
abbrev pub server_name : List ℕ
server_name = b'R' ∷ b'p' ∷ b'c' ∷ b'S' ∷ b'e' ∷ b'r' ∷ b'v' ∷ b'e' ∷ b'r' ∷ []

abbrev pub thread_num : ℕ
thread_num = 15

-- What `Run` does, in its order; the nodes that `Append` writes are in the tree.
pub data Effect : Type 0 where
  of_server : TcpServer.Effect → Effect
  published : List ℕ → Effect

abbrev pub of_servers : List TcpServer.Effect → List Effect
of_servers [] = []
of_servers (e ∷ es) = of_server e ∷ of_servers es

abbrev pub publishes : List (List ℕ) → List Effect
publishes [] = []
publishes (name ∷ names) = published name ∷ publishes names

abbrev pub Outcome : Type 0
Outcome = Option (Tree × List Effect × TcpServer)

abbrev pub publish_and : Option Tree → (Tree → Tree × List Effect × TcpServer) → Outcome
publish_and none k = none
publish_and (some t) k = some (k t)

abbrev pub with_address : Option (List ℕ) → (List ℕ → Outcome) → Outcome
with_address none k = none
with_address (some address) k = k address

-- Up to the loop, and after `ZkClient::Start`, which Rpc/ZkClient/Session models. None: the text of the address or the line of an endpoint does not fit its buffer.
unfoldable pub run_server :
    Zookeeper → Inet → List ℕ → (ℕ → ℕ) → ℕ → ℕ → List ℕ → ℤ → ℤ → List (List ℕ) → Tree → Outcome
unfolding publish start set_thread_num new_server new_address to_ip_port
run_server zk net unset start_loop loop fd ip port weight names t =
    with_address (to_ip_port net (new_address net (to_uint16 port) ip)) (λ address.
      let (es, server) = new_server loop address server_name fd in
      let with_threads = set_thread_num thread_num server in
      publish_and (publish zk unset ip port weight names t) (λ t'.
        let (fs, s) = start false start_loop with_threads in
        (t', of_servers es ++ (publishes names ++ of_servers fs), s)))

-- What `onConnection` sets on the connection.
pub data Callback : Type 0 where
  message_callback : Callback

abbrev on_connection : Bool → List Callback
on_connection connected = if connected then message_callback ∷ [] else []
