-- ===== src/Net/TcpClient/Stopped.antt =====
-- A client that is stopped stays so.
use gd_rpc.Base.{
  ℕ, zero, suc, ◌≡◌, refl, List, [], ◌∷◌, ◌++◌, Bool, true, false, ◌&&◌, Option, none, some, arith,
  ◌∙◌,
}
use gd_rpc.Net.Connector
use gd_rpc.Net.TcpClient.Quiet.{
  is_quiet, all_quiet, IsOff, start_in_loop-IsOff, stop_in_loop-IsOff, handle_error-IsOff,
  handle_write-IsOff,
}
use gd_rpc.Net.TcpClient.{
  TcpClient, Effect, of_connector, established, Outcome, deliver, on_connector, disconnect, stop,
  enable_retry, acquired, shut_if, already, remove_connection, reconnect, Running, Event, connects,
  disconnects, stops, enables_retry, waits, starts_in_loop, stops_in_loop, errs, writes, closes,
  restarts, or_wait, in_loop_thread, in_any_thread, step, run,
}

-- No attempt to connect, and no connection.
abbrev pub is_still : Effect → Bool
is_still (of_connector e) = is_quiet e
is_still (established id) = false
is_still _ = true

abbrev pub all_still : List Effect → Bool
all_still [] = true
all_still (e ∷ es) = is_still e && all_still es

all_still-append : (es fs : List Effect) → all_still (es ++ fs) ≡ (all_still es && all_still fs)
all_still-append [] fs = refl
all_still-append (e ∷ es) fs = ground (arith, all_still-append es fs)

abbrev pub IsStill : Outcome → Type 0
IsStill (es, c) = (all_still es ≡ true) × (c.connect ≡ false) × (c.connector.connect ≡ false)

deliver-IsStill :
    (es : List Connector.Effect) (c : TcpClient)
    → all_quiet es ≡ true
    → c.connect ≡ false
    → c.connector.connect ≡ false
    → IsStill (deliver es c)
unfolding deliver
deliver-IsStill [] c q h k = (refl, h, k)
deliver-IsStill (Connector.queued_start ∷ es) c q h k = cc
deliver-IsStill (Connector.start_after n ∷ es) c q h k = cc
deliver-IsStill (Connector.channel_made ∷ es) c q h k = cc
deliver-IsStill (Connector.new_connection ∷ es) c q h k = cc
deliver-IsStill (e ∷ es) c q h k = deliver-IsStill es c q h k

on_connector-IsStill :
    (o : Connector.Outcome) (c : TcpClient)
    → IsOff o
    → c.connect ≡ false
    → IsStill (on_connector o c)
unfolding on_connector
on_connector-IsStill (es, k) c (q, n) h = deliver-IsStill es (record c { connector = k }) q h n

-- `connect` is not called again.
abbrev pub never_connects : List Event → Bool
never_connects [] = true
never_connects (connects in_loop r ∷ es) = false
never_connects (e ∷ es) = never_connects es

and_false : (a b : Bool) → b ≡ false → (a && b) ≡ false
and_false a b h = ground (arith, h)

shut_if-still : (o : Option ℕ) → all_still (shut_if o) ≡ true
shut_if-still none = refl
shut_if-still (some id) = refl

acquired-IsStill :
    (n : ℕ) (c : TcpClient)
    → c.connect ≡ false
    → c.connector.connect ≡ false
    → IsStill (or_wait (acquired n c) c)
acquired-IsStill zero c h k = (refl, h, k)
acquired-IsStill (suc n) c h k = (refl, h, k)

-- The loop's thread has no restart before it, and nothing asks for a connection.
abbrev IsDown : List Effect × Running → Type 0
IsDown (es, s) =
    (all_still es ≡ true)
    × (s.restarting ≡ false)
    × (s.client.connect ≡ false)
    × (s.client.connector.connect ≡ false)

in_loop_thread-IsDown :
    (o : Outcome) (s : Running)
    → s.restarting ≡ false
    → IsStill o
    → IsDown (in_loop_thread false o s)
in_loop_thread-IsDown (es, c) s n (q, h, k) = rw n (q, refl, h, k)

in_any_thread-IsDown :
    (o : Outcome) (s : Running) → s.restarting ≡ false → IsStill o → IsDown (in_any_thread o s)
in_any_thread-IsDown (es, c) s n (q, h, k) = (q, n, h, k)

step-IsDown :
    (e : Event) (s : Running)
    → never_connects (e ∷ []) ≡ true
    → s.restarting ≡ false
    → s.client.connect ≡ false
    → s.client.connector.connect ≡ false
    → IsDown (step e s)
unfolding step disconnect stop enable_retry already remove_connection Connector.stop
step-IsDown (connects in_loop r) s q n h k = cc
step-IsDown disconnects s q n h k = (shut_if-still s.client.connection, n, refl, k)
step-IsDown stops s q n h k = in_any_thread-IsDown (stop s.client) s n (
    on_connector-IsStill (Connector.stop s.client.connector) (record s.client { connect = false })
      (refl, refl) refl)
step-IsDown enables_retry s q n h k = (refl, n, h, k)
step-IsDown waits s q n h k =
    in_any_thread-IsDown (or_wait (already s.client) s.client) s n
      (acquired-IsStill s.client.latch s.client h k)
step-IsDown (starts_in_loop r) s q n h k =
    in_loop_thread-IsDown (on_connector (Connector.start_in_loop r s.client.connector) s.client) s n
      (on_connector-IsStill (Connector.start_in_loop r s.client.connector) s.client
        (start_in_loop-IsOff r s.client.connector k) h)
step-IsDown stops_in_loop s q n h k =
    in_loop_thread-IsDown (on_connector (Connector.stop_in_loop s.client.connector) s.client) s n (
      on_connector-IsStill (Connector.stop_in_loop s.client.connector) s.client
        (stop_in_loop-IsOff s.client.connector.state s.client.connector k refl) h)
step-IsDown errs s q n h k =
    in_loop_thread-IsDown (on_connector (Connector.handle_error s.client.connector) s.client) s n (
      on_connector-IsStill (Connector.handle_error s.client.connector) s.client
        (handle_error-IsOff s.client.connector.state s.client.connector k refl) h)
step-IsDown (writes err) s q n h k =
    in_loop_thread-IsDown (on_connector (Connector.handle_write err s.client.connector) s.client) s
      n
      (on_connector-IsStill (Connector.handle_write err s.client.connector) s.client
        (handle_write-IsOff err s.client.connector.state s.client.connector k refl) h)
step-IsDown (closes id) s q n h k = rw n (refl, and_false s.client.retry s.client.connect h, h, k)
step-IsDown (restarts r) s q n h k = rw n (refl, refl, h, k)

never_connects-cons :
    (e : Event) (es : List Event)
    → never_connects (e ∷ es) ≡ true
    → (never_connects (e ∷ []) ≡ true) × (never_connects es ≡ true)
never_connects-cons (connects in_loop r) es h = cc
never_connects-cons disconnects es h = (refl, h)
never_connects-cons stops es h = (refl, h)
never_connects-cons enables_retry es h = (refl, h)
never_connects-cons waits es h = (refl, h)
never_connects-cons (starts_in_loop r) es h = (refl, h)
never_connects-cons stops_in_loop es h = (refl, h)
never_connects-cons errs es h = (refl, h)
never_connects-cons (writes err) es h = (refl, h)
never_connects-cons (closes id) es h = (refl, h)
never_connects-cons (restarts r) es h = (refl, h)

run-IsDown :
    (es : List Event) (s : Running)
    → never_connects es ≡ true
    → s.restarting ≡ false
    → s.client.connect ≡ false
    → s.client.connector.connect ≡ false
    → IsDown (run es s)
unfolding run
run-IsDown [] s q n h k = (refl, n, h, k)
run-IsDown (e ∷ es) s q n h k =
    let (q1, q2) = never_connects-cons e es q in
    let (a, n', h', k') = step-IsDown e s q1 n h k in
    let (b, n'', h'', k'') = run-IsDown es (step e s).1 q2 n' h' k' in
    (all_still-append (step e s).0 (run es (step e s).1).0 ∙ rw (a, b) refl, n'', h'', k'')

-- After `stop`, when it is called while the loop's thread is not between the test of `connect_` and the
-- restart in `removeConnection`: from any other state, whatever was queued in the loop or waits for
-- its retry, and while `connect` is not called again, the client makes no channel, queues no start of
-- the connector and establishes no connection, and comes to no restart.
pub run-stop :
    (es : List Event) (s : Running)
    → never_connects es ≡ true
    → s.restarting ≡ false
    → let (ys, s') = run (stops ∷ es) s in
      (all_still ys ≡ true)
      × (s'.restarting ≡ false)
      × (s'.client.connect ≡ false)
      × (s'.client.connector.connect ≡ false)
unfolding run step stop Connector.stop
run-stop es s q n =
    let (a, h, k) =
      on_connector-IsStill (Connector.stop s.client.connector) (record s.client { connect = false })
        (refl, refl) refl in
    let (b, n', h', k') = run-IsDown es (step stops s).1 q n h k in
    (all_still-append (step stops s).0 (run es (step stops s).1).0 ∙ rw (a, b) refl, n', h', k')

-- A `stop` between that test and the restart is undone: the connector's `connect_` is set again, and it
-- makes the next channel.
pub stop-undone :
    (s : Running)
    → s.restarting ≡ true
    → let (ys, s') = run (stops ∷ restarts Connector.in_progress ∷ []) s in
      (ys ≡ of_connector Connector.queued_stop ∷ of_connector Connector.channel_made ∷ [])
      × (s'.client.connector.connect ≡ true)
unfolding run step stop reconnect on_connector deliver Connector.stop Connector.restart
    Connector.start_in_loop Connector.connect
stop-undone s n = rw n (refl, refl)
