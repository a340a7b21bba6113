-- ===== src/Net/Connector/Tests.antt =====
-- Attempts that fail, and a stop.
use gd_rpc.Base.{◌≡◌, refl, List, [], ◌∷◌, ◌++◌, true, false, arith}
use gd_rpc.Net.Connector.{
  disconnected, connecting, connected, Connector, queued_start, queued_stop, queued_reset,
  start_after, channel_made, channel_removed, new_connection, socket_closed, in_progress,
  unavailable, Event, starts, starts_in_loop, errs, writes, step, run, new_connector, start,
  start_in_loop, connect, handle_error, handle_write, retry, stop, stop_in_loop,
}
use gd_rpc.Net.Connector.Delay.{
  IsDelay, AllDelays, run-delays, handle_error-twice, stop-closes_twice,
}

abbrev script : List Event
script =
    starts true unavailable
    ∷ starts_in_loop in_progress
    ∷ errs
    ∷ starts_in_loop in_progress
    ∷ writes false
    ∷ []

run-script : run script new_connector ≡ (
  socket_closed
      ∷ queued_start
      ∷ start_after 500
      ∷ channel_made
      ∷ channel_removed
      ∷ queued_reset
      ∷ socket_closed
      ∷ queued_start
      ∷ start_after 1000
      ∷ channel_made
      ∷ new_connection
      ∷ [],
  record { connect = true; state = connected; retry_delay = 2000 },
)
unfolding run step start start_in_loop connect handle_error handle_write retry new_connector
run-script = refl

run-delays_example :
    AllDelays (run script new_connector).0 × IsDelay (run script new_connector).1.retry_delay
unfolding new_connector
run-delays_example = run-delays script new_connector (omega arith, omega arith)

abbrev waiting : Connector
waiting = record { connect = true; state = connecting; retry_delay = 16000 }

handle_error-twice_sample :
    let (es, c') = handle_error waiting in
    (es ≡ channel_removed ∷ queued_reset ∷ socket_closed ∷ queued_start ∷ start_after 16000 ∷ [])
    × (c'.state ≡ disconnected)
    × (c'.retry_delay ≡ 30000)
handle_error-twice_sample = handle_error-twice waiting refl refl (omega arith, omega arith)

stop-closes_twice_sample :
    let (es1, c1) = stop waiting in
    let (es2, c2) = handle_write false c1 in
    let (es3, c3) = stop_in_loop c2 in
    (es1 ++ (es2 ++ es3)
      ≡ queued_stop ∷ channel_removed ∷ queued_reset ∷ socket_closed ∷ channel_removed
        ∷ queued_reset ∷ socket_closed ∷ [])
    × (c3.state ≡ disconnected)
stop-closes_twice_sample = stop-closes_twice true 16000
