-- ===== src/Net/Connection/Tests.antt =====
-- Runs of a connection, and its theorems at concrete connections.
use gd_rpc.Base.{◌≤◌, ◌≡◌, refl, ◌++◌, List, [], ◌∷◌, true, false, arith, ◌==◌, if◌then◌else◌}
use gd_rpc.Net.Buffer.{Buffer, readable, append, retrieve, peek}
use gd_rpc.Net.Buffer.Laws.{IsValid, contents}
use gd_rpc.Net.Connection.{
  connected, Connection, written, write_closed, changed, wrote, would_block, Event, sends, shuts,
  writes, run, step, send, send_in_loop, write_first, keep_rest, shutdown, shutdown_in_loop,
  handle_write, write_some, drained,
}
use gd_rpc.Net.Channel.{enable_writing, disable_writing, set_events}
use gd_rpc.Net.Connection.Sending.{sent}
use gd_rpc.Net.Connection.Stream.{all_accepted, run_stream}
use gd_rpc.Net.Connection.States.{run-stage, stage}
use gd_rpc.Net.Connection.Armed.{IsArmed, run-IsArmed, shutdown_in_loop-drained}

abbrev empty : Buffer
empty = record { bytes = 0 ∷ 0 ∷ []; reader = 0; writer = 0 }

abbrev open_connection : Connection
open_connection = record {
  state = connected;
  events = record { reads = true; writes = false };
  input = empty;
  output = empty;
  high_water_mark = 8;
  write_complete_set = false;
  high_water_set = false;
}

empty-IsValid : IsValid empty
empty-IsValid = omega arith

open-IsArmed : IsArmed open_connection
unfolding readable
open-IsArmed = record { valid = empty-IsValid; armed = λ o. refl }

-- Four bytes of which the kernel takes one, a shutdown, and then the socket is writable twice.
abbrev script : List Event
script =
    sends true (wrote 1) (1 ∷ 2 ∷ 3 ∷ 4 ∷ [])
    ∷ shuts true
    ∷ sends true (wrote 9) (5 ∷ [])
    ∷ writes would_block
    ∷ writes (wrote 2)
    ∷ writes (wrote 9)
    ∷ []

run-open :
    (run script open_connection).0
    ≡ written (1 ∷ [])
      ∷ changed enable_writing
      ∷ written (2 ∷ 3 ∷ [])
      ∷ written (4 ∷ [])
      ∷ changed disable_writing
      ∷ write_closed
      ∷ []
unfolding run step send send_in_loop write_first keep_rest shutdown shutdown_in_loop handle_write
    write_some drained readable append retrieve peek set_events
run-open = refl

run_stream_example :
    let (fs, c') = run script open_connection in
    IsValid c'.output
    × (sent fs ++ contents c'.output ≡ contents empty ++ all_accepted script open_connection)
run_stream_example = run_stream script open_connection empty-IsValid

run-IsArmed_example : IsArmed (run script open_connection).1
run-IsArmed_example = run-IsArmed script open_connection open-IsArmed

shutdown_in_loop-drained_sample :
    (shutdown_in_loop open_connection).0 ≡ (if readable empty == 0 then write_closed ∷ [] else [])
shutdown_in_loop-drained_sample = shutdown_in_loop-drained open_connection open-IsArmed refl

run-stage_example : stage connected ≤ stage (run script open_connection).1.state
run-stage_example = run-stage script open_connection
