-- ===== src/Net/Connection/States.antt =====
-- The states of a connection, and when its socket asks to write.
use gd_rpc.Base.{ℕ, ◌≤◌, ◌≡◌, refl, ap, List, [], ◌∷◌, Bool, Option, none, some, arith, drop}
use gd_rpc.Net.Connection.{
  State, disconnected, connecting, connected, disconnecting, Connection, Wrote, taken, keep_rest,
  write_first, send_in_loop, send, shutdown_in_loop, shutdown, connect_destroyed, drained,
  write_some, handle_close, handle_read, handle_write, force_close, force_close_in_loop, Event,
  sends, runs_send, shuts, runs_shutdown, forces, runs_force, destroys, reads, writes, step, run,
}

-- How far a connection has come.
abbrev pub stage : State → ℕ
stage connecting = 0
stage connected = 1
stage disconnecting = 2
stage disconnected = 3

state-keep_rest : (s : List ℕ) (c : Connection) → (keep_rest s c).1.state ≡ c.state
unfolding keep_rest
state-keep_rest s c = refl

state-write_first :
    (r : Wrote) (s : List ℕ) (c : Connection) → (write_first r s c).1.state ≡ c.state
unfolding write_first
state-write_first r s c = ground (arith, state-keep_rest (drop (taken r s) s) c)

state-send_in_loop :
    (r : Wrote) (s : List ℕ) (c : Connection) → (send_in_loop r s c).1.state ≡ c.state
unfolding send_in_loop
state-send_in_loop r s c = ground (arith, state-keep_rest s c, state-write_first r s c)

state-send : (l : Bool) (r : Wrote) (s : List ℕ) (c : Connection) → (send l r s c).1.state ≡ c.state
unfolding send
state-send l r s c = ground (arith, state-send_in_loop r s c)

state-handle_write : (r : Wrote) (c : Connection) → (handle_write r c).1.state ≡ c.state
unfolding handle_write write_some drained
state-handle_write r c = ground arith

stage-shutdown : (l : Bool) (c : Connection) → stage c.state ≤ stage (shutdown l c).1.state
unfolding shutdown shutdown_in_loop
stage-shutdown l c = ground arith

stage-force_close : (c : Connection) → stage c.state ≤ stage (force_close c).1.state
unfolding force_close
stage-force_close c = ground arith

stage-closed : (s : State) → stage s ≤ 3
stage-closed disconnected = omega arith
stage-closed connecting = omega arith
stage-closed connected = omega arith
stage-closed disconnecting = omega arith

stage-force_close_in_loop : (c : Connection) → stage c.state ≤ stage (force_close_in_loop c).1.state
unfolding force_close_in_loop handle_close
stage-force_close_in_loop c = ground (arith, stage-closed c.state)

stage-connect_destroyed : (c : Connection) → stage c.state ≤ stage (connect_destroyed c).1.state
unfolding connect_destroyed
stage-connect_destroyed c = ground (arith, stage-closed c.state)

stage-handle_read :
    (r : Option (List ℕ)) (c : Connection) → stage c.state ≤ stage (handle_read r c).1.state
unfolding handle_read handle_close
stage-handle_read none c = omega arith
stage-handle_read (some []) c = stage-closed c.state
stage-handle_read (some (b ∷ bs)) c = omega arith

step-stage : (e : Event) (c : Connection) → stage c.state ≤ stage (step e c).1.state
unfolding step shutdown_in_loop
step-stage (sends l r s) c = omega (arith, ap stage (state-send l r s c))
step-stage (runs_send r s) c = omega (arith, ap stage (state-send_in_loop r s c))
step-stage (shuts l) c = stage-shutdown l c
step-stage runs_shutdown c = omega arith
step-stage forces c = stage-force_close c
step-stage runs_force c = stage-force_close_in_loop c
step-stage destroys c = stage-connect_destroyed c
step-stage (reads r) c = stage-handle_read r c
step-stage (writes r) c = omega (arith, ap stage (state-handle_write r c))

-- The states of a connection only advance, from connecting over connected and disconnecting to
-- disconnected: no sequence of sends, reads, writes, shutdowns, closes and removals leads back. (It
-- is `connectEstablished`, called once, that makes a new connection connected.)
pub run-stage : (es : List Event) (c : Connection) → stage c.state ≤ stage (run es c).1.state
unfolding run
run-stage [] c = omega arith
run-stage (e ∷ es) c = omega (arith, step-stage e c, run-stage es (step e c).1)
