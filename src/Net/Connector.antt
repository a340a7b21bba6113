-- ===== src/Net/Connector.antt =====
-- Connector of gdrpc/net/connector.hpp and connector.cpp. What the functions do to the system and to
-- the loop is the list that they return; the errno of `::connect` and SO_ERROR come from the system.
-- Each function is a run of the loop's thread; `start` and `stop` may be called in any.
pub mod Delay
mod Tests
use gd_rpc.Base.{ℕ, ◌*◌, List, [], ◌∷◌, ◌++◌, Bool, true, false, if◌then◌else◌, min}

-- `enum States`
pub data State : Type 0 where
  disconnected connecting connected : State

abbrev pub max_retry_delay : ℕ
max_retry_delay = 30 * 1000

abbrev pub init_retry_delay : ℕ
init_retry_delay = 500

pub record Connector : Type 0 where
  pub connect : Bool
  pub state : State
  pub retry_delay : ℕ

unfoldable pub new_connector : Connector
new_connector = record { connect = false; state = disconnected; retry_delay = init_retry_delay }

pub data Effect : Type 0 where
  -- `startInLoop`, `stopInLoop` and `resetChannel` queued in the loop.
  queued_start queued_stop queued_reset : Effect
  -- `runAfter` of `startInLoop`.
  start_after : ℕ → Effect
  -- A channel made, and its writing enabled; disabled and removed; disabled and handed on.
  channel_made channel_removed new_connection : Effect
  socket_closed fatal : Effect

abbrev pub Outcome : Type 0
Outcome = List Effect × Connector

-- How `switch (savedErrno)` tells the results of `::connect` apart.
pub data Connected : Type 0 where
  in_progress unavailable denied unexpected : Connected

unfoldable pub retry : Connector → Outcome
retry c =
    let c' = record c { state = disconnected } in
    if c.connect
    then (
      socket_closed ∷ queued_start ∷ start_after c.retry_delay ∷ [],
      record c' { retry_delay = min (c.retry_delay * 2) max_retry_delay },
    )
    else (socket_closed ∷ [], c')

abbrev pub make_channel : Connector → Outcome
make_channel c = (channel_made ∷ [], record c { state = connecting })

unfoldable pub connect : Connected → Connector → Outcome
connect in_progress c = make_channel c
connect unavailable c = retry c
connect denied c = (fatal ∷ socket_closed ∷ [], c)
connect unexpected c = (fatal ∷ socket_closed ∷ [], c)

abbrev pub start_if : Bool → Connected → Connector → Outcome
start_if true r c = connect r c
start_if false r c = ([], c)

unfoldable pub start_in_loop : Connected → Connector → Outcome
start_in_loop r c = start_if c.connect r c

-- `runInLoop` runs `startInLoop` at once in the loop's thread.
unfoldable pub start : Bool → Connected → Connector → Outcome
start in_loop r c =
    let c' = record c { connect = true } in
    if in_loop then start_in_loop r c' else (queued_start ∷ [], c')

unfoldable pub stop : Connector → Outcome
stop c = (queued_stop ∷ [], record c { connect = false })

abbrev pub remove_and_reset_channel : List Effect
remove_and_reset_channel = channel_removed ∷ queued_reset ∷ []

abbrev pub retry_removed : Connector → Outcome
retry_removed c = let (es, c') = retry c in (remove_and_reset_channel ++ es, c')

-- `compare_exchange_strong` sets the state before the retry.
unfoldable pub stop_in_loop : Connector → Outcome
stop_in_loop c = elim c.state [
  | connecting ↦ retry_removed (record c { state = disconnected })
  | _ ↦ ([], c)
]

unfoldable pub restart : Connected → Connector → Outcome
restart r c =
    start_in_loop r
      (record c { state = disconnected; retry_delay = init_retry_delay; connect = true })

-- `err`: whether SO_ERROR is set.
abbrev pub finish_connect : Bool → Connector → Outcome
finish_connect err c =
    if err
    then retry_removed c
    else if c.connect
    then (new_connection ∷ [], record c { state = connected })
    else (remove_and_reset_channel ++ (socket_closed ∷ []), c)

unfoldable pub handle_write : Bool → Connector → Outcome
handle_write err c = elim c.state [ connecting ↦ finish_connect err c | _ ↦ (fatal ∷ [], c) ]

unfoldable pub handle_error : Connector → Outcome
handle_error c = elim c.state [ connecting ↦ retry_removed c | _ ↦ ([], c) ]

pub data Event : Type 0 where
  starts : Bool → Connected → Event
  starts_in_loop restarts : Connected → Event
  stops stops_in_loop errs : Event
  writes : Bool → Event

unfoldable pub step : Event → Connector → Outcome
step (starts in_loop r) c = start in_loop r c
step (starts_in_loop r) c = start_in_loop r c
step (restarts r) c = restart r c
step stops c = stop c
step stops_in_loop c = stop_in_loop c
step errs c = handle_error c
step (writes err) c = handle_write err c

unfoldable pub run : List Event → Connector → Outcome
run [] c = ([], c)
run (e ∷ es) c = let (xs, c') = step e c in let (ys, c'') = run es c' in (xs ++ ys, c'')
