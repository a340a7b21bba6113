-- ===== src/Net/Connection/Armed.antt =====
-- When the socket of a connection asks to write, and when the stream is closed.
use gd_rpc.Base.{
  ℕ, ◌-◌, ◌≤◌, ◌<◌, ◌≡◌, refl, List, [], ◌∷◌, Bool, true, false, ◌&&◌, not, ◌||◌, Option, none,
  some, arith, ltb, ◌==◌, if◌then◌else◌, Bool-cases, inl, inr, length, drop, length-drop, ltb→lt,
}
use gd_rpc.Net.Buffer.{new_buffer, readable, peek}
use gd_rpc.Net.Buffer.Laws.{
  IsValid, append-IsValid, retrieve-IsValid, readable-append, readable-retrieve,
}
use gd_rpc.Net.Channel.{set_events}
use gd_rpc.Net.Connection.{
  send_later, new_connection, connect_established, Connection, write_closed, queued, Wrote,
  is_disconnected, is_connected, is_disconnecting, taken, is_fault, keep_rest, write_first,
  send_in_loop, send, shutdown_in_loop, shutdown, connect_destroyed, drained, write_some,
  handle_close, handle_read, handle_write, force_close, force_close_in_loop, Event, sends,
  runs_send, shuts, runs_shutdown, forces, runs_force, destroys, reads, writes, step, run,
}
use gd_rpc.Net.Connection.Sending.{offered}

-- An open connection asks to write exactly when bytes wait in its output buffer.
pub record IsArmed (c : Connection) : Type 0 where
  pub valid : IsValid c.output
  pub armed : is_disconnected c.state ≡ false → c.events.writes ≡ ltb 0 (readable c.output)

keep_rest-IsArmed :
    (s : List ℕ) (c : Connection) → 0 < length s → IsArmed c → IsArmed (keep_rest s c).1
unfolding keep_rest set_events
keep_rest-IsArmed s c h a = record {
  valid = append-IsValid s c.output a.valid;
  armed = λ o. ground (arith, readable-append s c.output a.valid);
}

write_first-IsArmed :
    (r : Wrote) (s : List ℕ) (c : Connection) → IsArmed c → IsArmed (write_first r s c).1
unfolding write_first
write_first-IsArmed r s c a = elim (Bool-cases (is_fault r)) [
  | inl f ↦ rw f a
  | inr f ↦ elim (Bool-cases (ltb 0 (length s - taken r s))) [
    | inl t ↦
        rw (f, t)
          (keep_rest-IsArmed (drop (taken r s) s) c (ground (arith, length-drop (taken r s) s)) a)
    | inr t ↦ rw (f, t) a
  ]
]

send_in_loop-IsArmed :
    (r : Wrote) (s : List ℕ) (c : Connection) → IsArmed c → IsArmed (send_in_loop r s c).1
unfolding send_in_loop
send_in_loop-IsArmed r s c a = elim (Bool-cases (is_disconnected c.state)) [
  | inl d ↦ rw d a
  | inr d ↦ elim (Bool-cases (not c.events.writes && readable c.output == 0)) [
    | inl i ↦ rw (d, i) (write_first-IsArmed r s c a)
    | inr i ↦ elim (Bool-cases (ltb 0 (length s))) [
      | inl t ↦ rw (d, i, t) (keep_rest-IsArmed s c (ltb→lt _ _ t) a)
      | inr t ↦ rw (d, i, t) a
    ]
  ]
]

send-IsArmed :
    (l : Bool) (r : Wrote) (s : List ℕ) (c : Connection) → IsArmed c → IsArmed (send l r s c).1
unfolding send
send-IsArmed l r s c a = elim (Bool-cases (is_connected c.state)) [
  | inr d ↦ rw d a
  | inl d ↦ rw d (go l)
]
  where
    go : (l : Bool) → IsArmed (if l then send_in_loop r s c else (queued (send_later s) ∷ [], c)).1
    go true = send_in_loop-IsArmed r s c a
    go false = a

shutdown-IsArmed : (l : Bool) (c : Connection) → IsArmed c → IsArmed (shutdown l c).1
unfolding shutdown shutdown_in_loop
shutdown-IsArmed l c a = record {
  valid = ground (arith, a.valid);
  armed = λ o. ground (arith, a.armed);
}

closed-IsArmed : (c : Connection) → IsArmed c → is_disconnected c.state ≡ true → IsArmed c
closed-IsArmed c a d = a

force_close-IsArmed : (c : Connection) → IsArmed c → IsArmed (force_close c).1
unfolding force_close
force_close-IsArmed c a = record {
  valid = ground (arith, a.valid);
  armed = λ o. ground (arith, a.armed);
}

handle_close-IsArmed : (c : Connection) → IsArmed c → IsArmed (handle_close c).1
unfolding handle_close
handle_close-IsArmed c a = record { valid = a.valid; armed = λ o. cc }

force_close_in_loop-IsArmed : (c : Connection) → IsArmed c → IsArmed (force_close_in_loop c).1
unfolding force_close_in_loop
force_close_in_loop-IsArmed c a =
    elim (Bool-cases (is_connected c.state || is_disconnecting c.state)) [
      | inl d ↦ rw d (handle_close-IsArmed c a)
      | inr d ↦ rw d a
    ]

connect_destroyed-IsArmed : (c : Connection) → IsArmed c → IsArmed (connect_destroyed c).1
unfolding connect_destroyed
connect_destroyed-IsArmed c a =
    elim (Bool-cases (is_connected c.state || is_disconnecting c.state)) [
      | inl d ↦ rw d (record { valid = a.valid; armed = λ o. cc })
      | inr d ↦ rw d a
    ]

handle_read-IsArmed :
    (r : Option (List ℕ)) (c : Connection) → IsArmed c → IsArmed (handle_read r c).1
unfolding handle_read handle_close
handle_read-IsArmed none c a = a
handle_read-IsArmed (some []) c a = record { valid = a.valid; armed = λ o. cc }
handle_read-IsArmed (some (b ∷ bs)) c a = record { valid = a.valid; armed = a.armed }

write_some-IsArmed :
    (n : ℕ) (c : Connection)
    → n ≤ readable c.output
    → c.events.writes ≡ true
    → IsArmed c
    → IsArmed (write_some n c).1
unfolding write_some drained set_events
write_some-IsArmed n c h w a = record {
  valid = ground (arith, retrieve-IsValid n c.output a.valid);
  armed = λ o. ground (arith, readable-retrieve n c.output a.valid);
}

handle_write-IsArmed : (r : Wrote) (c : Connection) → IsArmed c → IsArmed (handle_write r c).1
unfolding handle_write
handle_write-IsArmed r c a =
    elim (Bool-cases (c.events.writes && ltb 0 (taken r (peek c.output (readable c.output))))) [
      | inl t ↦ rw t (write_some-IsArmed _ c (offered r c a.valid) (ground arith) a)
      | inr t ↦ rw t a
    ]

-- Every event keeps the connection asking to write exactly when bytes wait.
step-IsArmed : (e : Event) (c : Connection) → IsArmed c → IsArmed (step e c).1
unfolding step shutdown_in_loop
step-IsArmed (sends l r s) c a = send-IsArmed l r s c a
step-IsArmed (runs_send r s) c a = send_in_loop-IsArmed r s c a
step-IsArmed (shuts l) c a = shutdown-IsArmed l c a
step-IsArmed runs_shutdown c a = a
step-IsArmed forces c a = force_close-IsArmed c a
step-IsArmed runs_force c a = force_close_in_loop-IsArmed c a
step-IsArmed destroys c a = connect_destroyed-IsArmed c a
step-IsArmed (reads r) c a = handle_read-IsArmed r c a
step-IsArmed (writes r) c a = handle_write-IsArmed r c a

-- From a connection whose output buffer is in range and which, if open, asks to write exactly
-- when bytes wait, no sequence of events leaves it open with bytes waiting and its socket not
-- asking to write, which would stall them, or asking to write with none waiting, which would spin
-- the loop.
pub run-IsArmed : (es : List Event) (c : Connection) → IsArmed c → IsArmed (run es c).1
unfolding run
run-IsArmed [] c a = a
run-IsArmed (e ∷ es) c a = run-IsArmed es (step e c).1 (step-IsArmed e c a)

-- Once established, a new connection asks to write exactly when bytes wait.
pub connect_established-IsArmed :
    (wc hw : Bool) → IsArmed (connect_established (new_connection wc hw)).1
unfolding connect_established new_connection readable new_buffer
connect_established-IsArmed wc hw = record { valid = omega arith; armed = λ o. refl }

-- The stream is closed for writing by a shutdown that is carried out on an open connection only when
-- no byte waits: what was sent before it is sent first.
pub shutdown_in_loop-drained :
    (c : Connection)
    → IsArmed c
    → is_disconnected c.state ≡ false
    → (shutdown_in_loop c).0 ≡ (if readable c.output == 0 then write_closed ∷ [] else [])
unfolding shutdown_in_loop
shutdown_in_loop-drained c a o = ground (arith, a.armed o)
