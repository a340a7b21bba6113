-- ===== src/Net/TcpClient.antt =====
-- TcpClient of gdrpc/net/tcpClient.hpp and tcpClient.cpp, over the Connector that it owns. A
-- connection is its number; what the functions do to it and to the loop is the list that they return.
-- Each function is a run of the loop's thread, but `connect`, `disconnect`, `stop`, `enable_retry` and
-- `already`, which any thread may call. A call of these comes between two functions of the loop's
-- thread, or in `removeConnection` between the test of `connect_` and the restart; that it comes
-- elsewhere inside a function, such as after a test of the connector's own `connect_`, is left out.
mod Quiet
pub mod Stopped
mod Tests
use gd_rpc.Base.{
  ℕ, zero, suc, ◌+◌, List, [], ◌∷◌, ◌++◌, Bool, true, false, ◌&&◌, if◌then◌else◌, Option, none,
  some, take,
}
use gd_rpc.Text.Decimal.{print_nat}
use gd_rpc.Net.Connector

pub record TcpClient : Type 0 where
  pub connector : Connector.Connector
  pub retry : Bool
  pub connect : Bool
  pub next_conn_id : ℕ
  -- The count of `latch_`; a `binary_semaphore` promises to hold no more than 1.
  pub latch : ℕ
  pub connection : Option ℕ

unfoldable pub new_client : TcpClient
new_client = record {
  connector = Connector.new_connector;
  retry = false;
  connect = false;
  next_conn_id = 1;
  latch = 0;
  connection = none;
}

pub data Effect : Type 0 where
  of_connector : Connector.Effect → Effect
  -- `connectEstablished`, `shutdown`; `connectDestroyed` and `forceClose` queued in the loop.
  established shut queued_destroy queued_force_close : ℕ → Effect
  -- The callback set that only destroys.
  close_callback_set : ℕ → Effect

abbrev pub Outcome : Type 0
Outcome = List Effect × TcpClient

-- `snprintf` cuts at the 32 bytes of `buf`. The address is not that of the peer: `peerAddr` is made
-- of itself, so its text is what the memory holds.
unfoldable pub conn_name : List ℕ → List ℕ → ℕ → List ℕ
unfolding print_nat
conn_name name peer_text id = name ++ take 31 (b':' ∷ (peer_text ++ (b'#' ∷ print_nat id)))

unfoldable pub new_connection : TcpClient → Outcome
new_connection c = (
  established c.next_conn_id ∷ [],
  record c {
    next_conn_id = c.next_conn_id + 1;
    connection = some c.next_conn_id;
    latch = c.latch + 1;
  },
)

-- What the connector does; its callback is `newConnection`.
unfoldable pub deliver : List Connector.Effect → TcpClient → Outcome
unfolding new_connection
deliver [] c = ([], c)
deliver (Connector.new_connection ∷ es) c =
    let (xs, c') = new_connection c in let (ys, c'') = deliver es c' in (xs ++ ys, c'')
deliver (e ∷ es) c = let (ys, c') = deliver es c in (of_connector e ∷ ys, c')

unfoldable pub on_connector : Connector.Outcome → TcpClient → Outcome
unfolding deliver
on_connector (es, k) c = deliver es (record c { connector = k })

unfoldable pub connect : Bool → Connector.Connected → TcpClient → Outcome
unfolding on_connector
connect in_loop r c =
    if c.connect
    then ([], c)
    else on_connector (Connector.start in_loop r c.connector) (record c { connect = true })

abbrev pub shut_if : Option ℕ → List Effect
shut_if none = []
shut_if (some id) = shut id ∷ []

unfoldable pub disconnect : TcpClient → Outcome
disconnect c = (shut_if c.connection, record c { connect = false })

unfoldable pub stop : TcpClient → Outcome
unfolding on_connector
stop c = on_connector (Connector.stop c.connector) (record c { connect = false })

unfoldable pub enable_retry : TcpClient → Outcome
enable_retry c = ([], record c { retry = true })

-- None: the call waits.
abbrev pub acquired : ℕ → TcpClient → Option TcpClient
acquired zero c = none
acquired (suc n) c = some (record c { latch = n })

unfoldable pub already : TcpClient → Option TcpClient
already c = acquired c.latch c

-- `removeConnection` up to its test: `connection_` is reset whichever connection has closed.
unfoldable pub remove_connection : ℕ → TcpClient → Outcome
remove_connection id c = (queued_destroy id ∷ [], record c { connection = none })

-- The test of `removeConnection`, and what it does when the test was passed.
abbrev pub reconnects : TcpClient → Bool
reconnects c = c.retry && c.connect

unfoldable pub reconnect : Connector.Connected → TcpClient → Outcome
unfolding on_connector
reconnect r c = on_connector (Connector.restart r c.connector) c

abbrev pub destroy_connection : Option ℕ → TcpClient → Outcome
destroy_connection (some id) c = (close_callback_set id ∷ queued_force_close id ∷ [], c)
destroy_connection none c = on_connector (Connector.stop c.connector) c

unfoldable pub destroy : TcpClient → Outcome
destroy c = destroy_connection c.connection c

-- The client, and whether the loop's thread is in `removeConnection` between the test, passed, and
-- the restart of the connector.
pub record Running : Type 0 where
  pub client : TcpClient
  pub restarting : Bool

pub data Event : Type 0 where
  connects : Bool → Connector.Connected → Event
  disconnects stops enables_retry waits : Event
  -- What the loop runs of the connector.
  starts_in_loop : Connector.Connected → Event
  stops_in_loop errs : Event
  writes : Bool → Event
  -- The close callback of a connection, in two steps.
  closes : ℕ → Event
  restarts : Connector.Connected → Event

abbrev pub or_wait : Option TcpClient → TcpClient → Outcome
or_wait none c = ([], c)
or_wait (some c') c = ([], c')

abbrev pub with_client : Bool → Outcome → List Effect × Running
with_client restarting (es, c) = (es, record { client = c; restarting = restarting })

-- A function of the loop's thread, which runs no other before it leaves `removeConnection`.
abbrev pub in_loop_thread : Bool → Outcome → Running → List Effect × Running
in_loop_thread after o s = if s.restarting then ([], s) else with_client after o

-- A function that any thread may run.
abbrev pub in_any_thread : Outcome → Running → List Effect × Running
in_any_thread o s = with_client s.restarting o

unfoldable pub step : Event → Running → List Effect × Running
unfolding connect disconnect stop enable_retry already remove_connection reconnect on_connector
step (connects true r) s = in_loop_thread false (connect true r s.client) s
step (connects false r) s = in_any_thread (connect false r s.client) s
step disconnects s = in_any_thread (disconnect s.client) s
step stops s = in_any_thread (stop s.client) s
step enables_retry s = in_any_thread (enable_retry s.client) s
step waits s = in_any_thread (or_wait (already s.client) s.client) s
step (starts_in_loop r) s =
    in_loop_thread false (on_connector (Connector.start_in_loop r s.client.connector) s.client) s
step stops_in_loop s =
    in_loop_thread false (on_connector (Connector.stop_in_loop s.client.connector) s.client) s
step errs s =
    in_loop_thread false (on_connector (Connector.handle_error s.client.connector) s.client) s
step (writes err) s =
    in_loop_thread false (on_connector (Connector.handle_write err s.client.connector) s.client) s
step (closes id) s = in_loop_thread (reconnects s.client) (remove_connection id s.client) s
step (restarts r) s = if s.restarting then with_client false (reconnect r s.client) else ([], s)

unfoldable pub run : List Event → Running → List Effect × Running
run [] s = ([], s)
run (e ∷ es) s = let (xs, s') = step e s in let (ys, s'') = run es s' in (xs ++ ys, s'')
