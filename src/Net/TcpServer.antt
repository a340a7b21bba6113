-- ===== src/Net/TcpServer.antt =====
-- TcpServer of gdrpc/net/tcpServer.hpp and tcpServer.cpp, with its Acceptor of gdrpc/net/acceptor.hpp
-- and acceptor.cpp. A loop, a descriptor and an address are numbers; the address that the server
-- listens on is also the text of it, from `toIpPort`. What is run in a loop or queued there is the list
-- that the functions return. Every function runs in the thread of `loop_`.
pub mod Names
pub mod Live
pub mod Started
pub mod Listening
mod StartTests
mod Tests
use gd_rpc.Base.{
  ℕ, zero, suc, ◌+◌, List, [], ◌∷◌, ◌++◌, Bool, true, false, Option, none, some, ◌==◌,
  if◌then◌else◌, take,
}
use gd_rpc.Text.{lookup_text, insert_text, erase_text}
use gd_rpc.Text.Decimal.{print_nat}
use gd_rpc.Net.ThreadPool.{ThreadPool, new_pool, get_next_loop}
use gd_rpc.Net.ThreadPool

-- What the server knows of a TcpConnection.
pub record ServerConnection : Type 0 where
  pub name : List ℕ
  pub loop : ℕ
  pub fd : ℕ
  pub peer : ℕ

pub record Acceptor : Type 0 where
  pub accept_fd : ℕ
  pub listenning : Bool
  pub callback_set : Bool

pub record TcpServer : Type 0 where
  pub loop : ℕ
  pub address : List ℕ
  pub name : List ℕ
  pub acceptor : Acceptor
  pub thread_pool : ThreadPool
  pub next_conn_id : ℕ
  pub started : ℕ
  pub connections : List (List ℕ × ServerConnection)

-- What is run in a loop.
pub data Work : Type 0 where
  listen : Work
  connect_established connect_destroyed remove_connection : ServerConnection → Work

pub data Effect : Type 0 where
  -- `bind` and `listen` of the socket, and `enableReading` of its channel.
  bound listened reading_enabled : ℕ → Effect
  closed : ℕ → Effect
  accept_failed : Effect
  thread_init : ℕ → Effect
  run_in queued_in : ℕ → Work → Effect

-- `Acceptor::Acceptor`, and the callback that the server's constructor sets.
abbrev pub new_acceptor : ℕ → Acceptor
new_acceptor fd = record { accept_fd = fd; listenning = false; callback_set = false }

abbrev pub set_new_connection_callback : Acceptor → Acceptor
set_new_connection_callback a = record a { callback_set = true }

unfoldable pub new_server : ℕ → List ℕ → List ℕ → ℕ → List Effect × TcpServer
unfolding new_pool
new_server loop address name fd = (
  bound fd ∷ [],
  record {
    loop = loop;
    address = address;
    name = name;
    acceptor = set_new_connection_callback (new_acceptor fd);
    thread_pool = new_pool loop;
    next_conn_id = 1;
    started = 0;
    connections = [];
  },
)

unfoldable pub set_thread_num : ℕ → TcpServer → TcpServer
unfolding ThreadPool.set_thread_num
set_thread_num n s = record s { thread_pool = ThreadPool.set_thread_num n s.thread_pool }

-- `Acceptor::listen`
unfoldable pub acceptor_listen : Acceptor → List Effect × Acceptor
acceptor_listen a =
    (listened a.accept_fd ∷ reading_enabled a.accept_fd ∷ [], record a { listenning = true })

abbrev pub init_effect : Option ℕ → List Effect
init_effect none = []
init_effect (some l) = thread_init l ∷ []

-- `runInLoop` of the server's own loop runs `listen` at once. The threads of the pool run their own
-- callback; `init_set` tells whether there is one.
abbrev pub start_first : Bool → (ℕ → ℕ) → TcpServer → List Effect × TcpServer
start_first init_set start_loop s =
    let (ran, pool) = ThreadPool.start init_set start_loop s.thread_pool in
    let (es, a) = acceptor_listen s.acceptor in
    (init_effect ran ++ es, record s { thread_pool = pool; acceptor = a; started = suc s.started })

-- `started_++ == 0`
unfoldable pub start : Bool → (ℕ → ℕ) → TcpServer → List Effect × TcpServer
unfolding ThreadPool.start acceptor_listen
start init_set start_loop s =
    if s.started == 0
    then start_first init_set start_loop s
    else ([], record s { started = suc s.started })

-- The name of a connection. `snprintf` keeps what fits `buf[64]` with its end.
unfoldable pub conn_name : TcpServer → ℕ → List ℕ
unfolding print_nat
conn_name s id = s.name ++ take 63 (b'-' ∷ (s.address ++ (b'#' ∷ print_nat id)))

abbrev pub make_connection : TcpServer → ℕ → ℕ → ℕ → ServerConnection
make_connection s l fd peer = record {
  name = conn_name s s.next_conn_id;
  loop = l;
  fd = fd;
  peer = peer;
}

abbrev pub add_connection : ServerConnection → TcpServer → List Effect × TcpServer
add_connection c s = (
  run_in c.loop (connect_established c) ∷ [],
  record s { next_conn_id = suc s.next_conn_id; connections = insert_text c.name c s.connections },
)

-- None: the pool's index is out of range.
abbrev pub on_loop : ℕ → ℕ → Option ℕ × ThreadPool → TcpServer → Option (List Effect × TcpServer)
on_loop fd peer (none, pool) s = none
on_loop fd peer (some l, pool) s =
    some (add_connection (make_connection s l fd peer) (record s { thread_pool = pool }))

unfoldable pub new_connection : ℕ → ℕ → TcpServer → Option (List Effect × TcpServer)
unfolding get_next_loop conn_name
new_connection fd peer s = on_loop fd peer (get_next_loop s.thread_pool) s

-- `Acceptor::handleRead`, on what `accept` returned.
unfoldable pub handle_read : Option (ℕ × ℕ) → TcpServer → Option (List Effect × TcpServer)
unfolding new_connection
handle_read none s = some (accept_failed ∷ [], s)
handle_read (some (fd, peer)) s =
    if s.acceptor.callback_set then new_connection fd peer s else some (closed fd ∷ [], s)

-- The close callback of a connection: `removeConnectionInLoop` goes to the server's loop.
abbrev pub on_close : ServerConnection → TcpServer → List Effect
on_close c s = run_in s.loop (remove_connection c) ∷ []

unfoldable pub remove_connection_in_loop : ServerConnection → TcpServer → List Effect × TcpServer
remove_connection_in_loop c s = (
  queued_in c.loop (connect_destroyed c) ∷ [],
  record s { connections = erase_text c.name s.connections },
)

-- The destructor.
abbrev pub destroy_all : List (List ℕ × ServerConnection) → List Effect
destroy_all [] = []
destroy_all ((_, c) ∷ m) = run_in c.loop (connect_destroyed c) ∷ destroy_all m

unfoldable pub destroy : TcpServer → List Effect
destroy s = destroy_all s.connections

-- The events of the server's loop. A connection that is removed was made by `newConnection`: its name
-- is that of an id.
pub data Event : Type 0 where
  accepts : Option (ℕ × ℕ) → Event
  removes : ℕ → ℕ → ℕ → ℕ → Event

abbrev pub removed_connection : TcpServer → ℕ → ℕ → ℕ → ℕ → ServerConnection
removed_connection s id l fd peer = record { name = conn_name s id; loop = l; fd = fd; peer = peer }

unfoldable pub step : Event → TcpServer → Option (List Effect × TcpServer)
step (accepts r) s = handle_read r s
step (removes id l fd peer) s =
    some (remove_connection_in_loop (removed_connection s id l fd peer) s)

abbrev pub and_then :
    Option (List Effect × TcpServer)
    → (TcpServer → Option (List Effect × TcpServer))
    → Option (List Effect × TcpServer)
and_then none k = none
and_then (some (es, s)) k = elim (k s) [ none ↦ none | some (fs, s') ↦ some (es ++ fs, s') ]

unfoldable pub run : List Event → TcpServer → Option (List Effect × TcpServer)
run [] s = some ([], s)
run (e ∷ es) s = and_then (step e s) (run es)
