-- ===== src/Net/Connection.antt =====
-- TcpConnection of gdrpc/net/tcpConnection.hpp and tcpConnection.cpp, without its Buffer. The socket
-- and the loop are not modelled here: what a handler does to them, and the callbacks that it runs,
-- are the entries of the list that it returns, in order. Logging is left out.
mod Sending
pub mod Stream
pub mod States
pub mod Armed
mod Tests
use gd_rpc.Base.{
  ℕ, zero, suc, ◌+◌, ◌-◌, ◌*◌, List, [], ◌∷◌, ◌++◌, Bool, true, false, ◌&&◌, ◌||◌, not, Option,
  none, some, ltb, leb, ◌==◌, if◌then◌else◌, length, take, drop, min,
}
use gd_rpc.Net.Buffer.{Buffer, new_buffer, initial_size, readable, peek, append, retrieve, read_fd}
use gd_rpc.Net.Channel.{
  Interest, Change, enable_reading, enable_writing, disable_writing, disable_all, set_events,
}

pub data State : Type 0 where
  disconnected connecting connected disconnecting : State

pub record Connection : Type 0 where
  pub state : State
  pub events : Interest
  pub input : Buffer
  pub output : Buffer
  pub high_water_mark : ℕ
  pub write_complete_set : Bool
  pub high_water_set : Bool

-- What is handed to the loop, to be run later.
pub data Work : Type 0 where
  write_complete : Work
  high_water : ℕ → Work
  send_later : List ℕ → Work
  shutdown_later force_close_later : Work

pub data Effect : Type 0 where
  written : List ℕ → Effect
  write_closed : Effect
  changed : Change → Effect
  tied removed : Effect
  queued : Work → Effect
  connection_callback message_callback close_callback : Effect

-- What `write` returned: a count, of which no more than was offered is taken, or -1 with an errno:
-- EWOULDBLOCK, EPIPE or ECONNRESET, or another.
pub data Wrote : Type 0 where
  wrote : ℕ → Wrote
  would_block fault other_error : Wrote

abbrev pub Outcome : Type 0
Outcome = List Effect × Connection

pub new_connection : Bool → Bool → Connection
new_connection wc hw = record {
  state = connecting;
  events = record { reads = false; writes = false };
  input = new_buffer initial_size;
  output = new_buffer initial_size;
  high_water_mark = 64 * 1024 * 1024;
  write_complete_set = wc;
  high_water_set = hw;
}

-- A change of the channel's interests.
abbrev pub change : Change → Connection → Outcome
change k c = (changed k ∷ [], record c { events = set_events k c.events })

abbrev pub is_disconnected : State → Bool
is_disconnected disconnected = true
is_disconnected _ = false

abbrev pub is_connected : State → Bool
is_connected connected = true
is_connected _ = false

abbrev pub is_disconnecting : State → Bool
is_disconnecting disconnecting = true
is_disconnecting _ = false

abbrev pub only_if : Bool → List Effect → List Effect
only_if b es = if b then es else []

-- The count of bytes that the direct `write` took, and whether `faultError` was set.
abbrev pub taken : Wrote → List ℕ → ℕ
taken (wrote n) s = min n (length s)
taken _ s = 0

abbrev pub is_fault : Wrote → Bool
is_fault fault = true
is_fault _ = false

abbrev pub is_wrote : Wrote → Bool
is_wrote (wrote _) = true
is_wrote _ = false

-- The second half of `sendInLoop`: the bytes left over go to the buffer.
unfoldable pub keep_rest : List ℕ → Connection → Outcome
unfolding set_events
keep_rest rest c =
    let old = readable c.output in
    let above =
      leb c.high_water_mark (old + length rest)
      && (ltb old c.high_water_mark && c.high_water_set) in
    let starts = not c.events.writes in
    (
      only_if above (queued (high_water (old + length rest)) ∷ [])
          ++ only_if starts (changed enable_writing ∷ []),
      record c {
        output = append rest c.output;
        events = if starts then set_events enable_writing c.events else c.events;
      },
    )

-- The first half: the direct `write`, when nothing is waiting.
unfoldable pub write_first : Wrote → List ℕ → Connection → Outcome
write_first r s c =
    let n = taken r s in
    let rest = drop n s in
    let (es, c') = keep_rest rest c in
    let sent = only_if (is_wrote r) (written (take n s) ∷ []) in
    if is_fault r
    then ([], c)
    else if ltb 0 (length s - n)
    then (sent ++ es, c')
    else (sent ++ only_if (is_wrote r && c.write_complete_set) (queued write_complete ∷ []), c)

unfoldable pub send_in_loop : Wrote → List ℕ → Connection → Outcome
send_in_loop r s c =
    if is_disconnected c.state
    then ([], c)
    else if not c.events.writes && readable c.output == 0
    then write_first r s c
    else if ltb 0 (length s)
    then keep_rest s c
    else ([], c)

-- `in_loop`: whether the caller runs on the connection's own thread.
unfoldable pub send : Bool → Wrote → List ℕ → Connection → Outcome
send in_loop r s c =
    if is_connected c.state
    then (if in_loop then send_in_loop r s c else (queued (send_later s) ∷ [], c))
    else ([], c)

unfoldable pub shutdown_in_loop : Connection → Outcome
shutdown_in_loop c = (only_if (not c.events.writes) (write_closed ∷ []), c)

unfoldable pub shutdown : Bool → Connection → Outcome
shutdown in_loop c =
    if is_connected c.state
    then (if in_loop
        then shutdown_in_loop (record c { state = disconnecting })
        else (queued shutdown_later ∷ [], record c { state = disconnecting }))
    else ([], c)

unfoldable pub connect_established : Connection → Outcome
unfolding set_events
connect_established c = (
  tied ∷ changed enable_reading ∷ connection_callback ∷ [],
  record c { state = connected; events = set_events enable_reading c.events },
)

unfoldable pub connect_destroyed : Connection → Outcome
connect_destroyed c =
    if is_connected c.state || is_disconnecting c.state
    then (connection_callback ∷ removed ∷ [], record c { state = disconnected })
    else (removed ∷ [], c)

unfoldable pub handle_close : Connection → Outcome
unfolding set_events
handle_close c = (
  changed disable_all ∷ connection_callback ∷ close_callback ∷ [],
  record c { state = disconnected; events = set_events disable_all c.events },
)

-- `readFd` gave bytes, none of them at the end of the stream, or failed; `handleError` only logs.
unfoldable pub handle_read : Option (List ℕ) → Connection → Outcome
handle_read none c = ([], c)
handle_read (some []) c = handle_close (record c { input = (read_fd (some []) c.input).1 })
handle_read (some (b ∷ bs)) c =
    (message_callback ∷ [], record c { input = (read_fd (some (b ∷ bs)) c.input).1 })

-- All is sent: writing ends, and so does the stream if `shutdown` was called before.
unfoldable pub drained : Connection → Outcome
unfolding set_events
drained c =
    let c' = record c { events = set_events disable_writing c.events } in
    (
      changed disable_writing ∷ only_if c.write_complete_set (queued write_complete ∷ [])
          ++ (if is_disconnecting c.state then (shutdown_in_loop c').0 else []),
      c',
    )

unfoldable pub write_some : ℕ → Connection → Outcome
write_some n c =
    let c' = record c { output = (retrieve n c.output).1 } in
    let (es, c'') = drained c' in
    if readable c'.output == 0
    then (written (peek c.output n) ∷ es, c'')
    else (written (peek c.output n) ∷ [], c')

unfoldable pub handle_write : Wrote → Connection → Outcome
handle_write r c =
    let n = taken r (peek c.output (readable c.output)) in
    if c.events.writes && ltb 0 n then write_some n c else ([], c)

unfoldable pub force_close : Connection → Outcome
force_close c =
    if is_connected c.state
    then (queued force_close_later ∷ [], record c { state = disconnecting })
    else ([], c)

unfoldable pub force_close_in_loop : Connection → Outcome
force_close_in_loop c =
    if is_connected c.state || is_disconnecting c.state then handle_close c else ([], c)

-- What happens to a connection once it is established.
pub data Event : Type 0 where
  sends : Bool → Wrote → List ℕ → Event
  runs_send : Wrote → List ℕ → Event
  shuts : Bool → Event
  runs_shutdown forces runs_force destroys : Event
  reads : Option (List ℕ) → Event
  writes : Wrote → Event

unfoldable pub step : Event → Connection → Outcome
step (sends l r s) c = send l r s c
step (runs_send r s) c = send_in_loop r s c
step (shuts l) c = shutdown l c
step runs_shutdown c = shutdown_in_loop c
step forces c = force_close c
step runs_force c = force_close_in_loop c
step destroys c = connect_destroyed c
step (reads r) c = handle_read r c
step (writes r) c = handle_write r c

unfoldable pub run : List Event → Connection → Outcome
run [] c = ([], c)
run (e ∷ es) c = let (fs, c') = step e c in let (gs, c'') = run es c' in (fs ++ gs, c'')
