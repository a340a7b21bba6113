-- ===== src/Util/AsyncLog/Tests.antt =====
-- Buffers of four bytes.
use gd_rpc.Base.{◌≡◌, refl, List, [], ◌∷◌, ◌++◌, some, arith}
use gd_rpc.Util.AsyncLog.{
  new_logging, new_writer, append, buffer_append, turn, overruns, Event, appends, turns, Running,
  run, step,
}
use gd_rpc.Util.AsyncLog.Order.{IsReadyAfter, run-IsReady, IsCalm, pending_after, run-order}

abbrev start : Running
start = (
  record { new_buffer1 = []; new_buffer2 = [] },
  record { current_buffer = []; next_buffer = some []; buffers = [] },
)

new_logging-start : (new_writer, new_logging) ≡ start
unfolding new_writer new_logging
new_logging-start = refl

abbrev script : List Event
script =
    appends (1 ∷ 2 ∷ [])
    ∷ appends (3 ∷ 4 ∷ [])
    ∷ appends (5 ∷ 6 ∷ 7 ∷ [])
    ∷ turns []
    ∷ appends (8 ∷ [])
    ∷ []

run-start : run 4 script start ≡ (
  1 ∷ 2 ∷ 3 ∷ 4 ∷ 5 ∷ 6 ∷ 7 ∷ [],
  some (
    record { new_buffer1 = []; new_buffer2 = [] },
    record { current_buffer = 8 ∷ []; next_buffer = some []; buffers = [] },
  ),
)
unfolding run step append buffer_append turn
run-start = refl

run-IsReady_example : IsReadyAfter (run 4 script start).1
run-IsReady_example = run-IsReady 4 script start (refl, refl, refl)

script-IsCalm : IsCalm 4 script start
unfolding run step append buffer_append turn overruns
script-IsCalm = (omega arith, (omega arith, (omega arith, (refl, (omega arith, refl)))))

run-order_example :
    let (out, r') = run 4 script start in
    out ++ pending_after r' ≡ 1 ∷ 2 ∷ 3 ∷ 4 ∷ 5 ∷ 6 ∷ 7 ∷ 8 ∷ []
run-order_example = run-order 4 script start (refl, refl, refl) script-IsCalm
