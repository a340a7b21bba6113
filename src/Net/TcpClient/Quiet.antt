-- ===== src/Net/TcpClient/Quiet.antt =====
-- A connector whose `connect_` is not set starts nothing.
use gd_rpc.Base.{◌≡◌, refl, List, [], ◌∷◌, Bool, true, false, ◌&&◌}
use gd_rpc.Net.Connector
use gd_rpc.Net.Connector.{State, disconnected, connecting, connected}

-- Nothing that starts, goes on with or ends an attempt to connect.
abbrev pub is_quiet : Connector.Effect → Bool
is_quiet Connector.queued_start = false
is_quiet (Connector.start_after n) = false
is_quiet Connector.channel_made = false
is_quiet Connector.new_connection = false
is_quiet _ = true

abbrev pub all_quiet : List Connector.Effect → Bool
all_quiet [] = true
all_quiet (e ∷ es) = is_quiet e && all_quiet es

abbrev pub IsOff : Connector.Outcome → Type 0
IsOff (es, k) = (all_quiet es ≡ true) × (k.connect ≡ false)

pub start_in_loop-IsOff :
    (r : Connector.Connected) (k : Connector.Connector)
    → k.connect ≡ false
    → IsOff (Connector.start_in_loop r k)
unfolding Connector.start_in_loop
start_in_loop-IsOff r k h = rw h (refl, refl)

retry_removed-IsOff :
    (k : Connector.Connector) → k.connect ≡ false → IsOff (Connector.retry_removed k)
unfolding Connector.retry
retry_removed-IsOff k h = rw h (refl, refl)

pub stop_in_loop-IsOff :
    (s : State) (k : Connector.Connector)
    → k.connect ≡ false
    → k.state ≡ s
    → IsOff (Connector.stop_in_loop k)
unfolding Connector.stop_in_loop
stop_in_loop-IsOff connecting k h e =
    rw e (retry_removed-IsOff (record k { state = disconnected }) h)
stop_in_loop-IsOff connected k h e = rw e (refl, h)
stop_in_loop-IsOff disconnected k h e = rw e (refl, h)

pub handle_error-IsOff :
    (s : State) (k : Connector.Connector)
    → k.connect ≡ false
    → k.state ≡ s
    → IsOff (Connector.handle_error k)
unfolding Connector.handle_error
handle_error-IsOff connecting k h e = rw e (retry_removed-IsOff (record k { state = connecting }) h)
handle_error-IsOff connected k h e = rw e (refl, h)
handle_error-IsOff disconnected k h e = rw e (refl, h)

finish_connect-IsOff :
    (err : Bool) (k : Connector.Connector)
    → k.connect ≡ false
    → IsOff (Connector.finish_connect err k)
finish_connect-IsOff true k h = retry_removed-IsOff k h
finish_connect-IsOff false k h = rw h (refl, refl)

pub handle_write-IsOff :
    (err : Bool) (s : State) (k : Connector.Connector)
    → k.connect ≡ false
    → k.state ≡ s
    → IsOff (Connector.handle_write err k)
unfolding Connector.handle_write
handle_write-IsOff err connecting k h e =
    rw e (finish_connect-IsOff err (record k { state = connecting }) h)
handle_write-IsOff err connected k h e = rw e (refl, h)
handle_write-IsOff err disconnected k h e = rw e (refl, h)
