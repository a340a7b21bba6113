-- ===== src/Net/TcpClient/Tests.antt =====
-- A server that refuses once, and a client stopped while it tries again.
use gd_rpc.Base.{◌≡◌, refl, [], ◌∷◌, true, false, none, some}
use gd_rpc.Net.Connector
use gd_rpc.Net.Connector.{State, in_progress, unavailable}
use gd_rpc.Net.TcpClient.{
  TcpClient, of_connector, established, queued_destroy, new_client, conn_name, new_connection,
  deliver, on_connector, connect, enable_retry, remove_connection, connects, enables_retry, Running,
  stops, restarts, reconnect, starts_in_loop, stops_in_loop, writes, closes, step, run,
}
use gd_rpc.Net.TcpClient.Stopped.{all_still, run-stop}
use gd_rpc.Text.Decimal.{print_nat}

-- The name is cut where the buffer of 32 bytes ends.
conn_name-short :
    conn_name (b'c' ∷ []) (b'?' ∷ []) 12 ≡ b'c' ∷ b':' ∷ b'?' ∷ b'#' ∷ b'1' ∷ b'2' ∷ []
unfolding conn_name print_nat
conn_name-short = refl

abbrev started : Running
started = record { client = new_client; restarting = false }

-- One refusal queues the start twice, at once and after the delay: the second start connects again
-- beside the connection that the first has made, which is then no longer the client's.
run-refused :
    let (es, s) =
      run
        (connects true unavailable
          ∷ starts_in_loop in_progress
          ∷ writes false
          ∷ starts_in_loop in_progress
          ∷ writes false
          ∷ [])
        started in
    (es
      ≡ of_connector Connector.socket_closed
        ∷ of_connector Connector.queued_start
        ∷ of_connector (Connector.start_after 500)
        ∷ of_connector Connector.channel_made
        ∷ established 1
        ∷ of_connector Connector.channel_made
        ∷ established 2
        ∷ [])
    × (s.client.connection ≡ some 2)
    × (s.client.latch ≡ 2)
unfolding run step new_client connect on_connector deliver new_connection Connector.start
    Connector.start_in_loop Connector.connect Connector.retry Connector.handle_write
    Connector.new_connector
run-refused = (refl, refl, refl)

-- With `enable_retry`, a connection that closes is made anew.
run-retried :
    let (es, s) =
      run
        (enables_retry
          ∷ connects true in_progress
          ∷ writes false
          ∷ closes 1
          ∷ restarts in_progress
          ∷ writes false
          ∷ [])
        started in
    (es
      ≡ of_connector Connector.channel_made
        ∷ established 1
        ∷ queued_destroy 1
        ∷ of_connector Connector.channel_made
        ∷ established 2
        ∷ [])
    × (s.client.connection ≡ some 2)
unfolding run step new_client connect enable_retry remove_connection reconnect on_connector deliver
    new_connection Connector.start Connector.start_in_loop Connector.connect Connector.restart
    Connector.handle_write Connector.new_connector
run-retried = (refl, refl)

-- A client that waits for its delay.
abbrev waiting : TcpClient
waiting = record {
  connector = record { connect = true; state = Connector.disconnected; retry_delay = 1000 };
  retry = true;
  connect = true;
  next_conn_id = 1;
  latch = 0;
  connection = none;
}

abbrev at_rest : Running
at_rest = record { client = waiting; restarting = false }

run-stop_example :
    let (ys, s') =
      run
        (stops ∷ starts_in_loop in_progress ∷ stops_in_loop ∷ closes 1 ∷ writes false ∷ [])
        at_rest in
    (all_still ys ≡ true)
    × (s'.restarting ≡ false)
    × (s'.client.connect ≡ false)
    × (s'.client.connector.connect ≡ false)
run-stop_example =
    run-stop (starts_in_loop in_progress ∷ stops_in_loop ∷ closes 1 ∷ writes false ∷ []) at_rest
      refl refl
