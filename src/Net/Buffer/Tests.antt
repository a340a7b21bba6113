-- ===== src/Net/Buffer/Tests.antt =====
-- Runs of the buffer, and its theorems at concrete buffers.
use gd_rpc.Base.{◌≡◌, refl, List, [], ◌∷◌, true, false, none, arith}
use gd_rpc.Net.Buffer.{Buffer, retrieve, append, read_fd}
use gd_rpc.Net.Buffer.Laws.{IsValid, contents}
use gd_rpc.Net.Buffer.Refine.{
  step, Op, puts, takes, receives, done, flag, got, run, queue_run, run_refines,
}

-- Two readable bytes, one free place behind them and one before them.
abbrev small : Buffer
small = record { bytes = 9 ∷ 1 ∷ 2 ∷ 0 ∷ []; reader = 1; writer = 3 }

small-IsValid : IsValid small
small-IsValid = omega arith

-- Two bytes do not fit behind the others: they are moved to the front first.
append_moves :
    append (3 ∷ 4 ∷ []) small ≡ record { bytes = 1 ∷ 2 ∷ 3 ∷ 4 ∷ []; reader = 0; writer = 4 }
unfolding append
append_moves = refl

append_grows :
    append (3 ∷ 4 ∷ 5 ∷ []) small
    ≡ record { bytes = 9 ∷ 1 ∷ 2 ∷ 3 ∷ 4 ∷ 5 ∷ []; reader = 1; writer = 6 }
unfolding append
append_grows = refl

abbrev script : List Op
script = puts (3 ∷ 4 ∷ []) ∷ takes 3 ∷ receives none ∷ takes 2 ∷ takes 1 ∷ []

run_refines_example :
    IsValid (run small script).1
    × ((run small script).0 ≡ (queue_run (contents small) script).0)
    × (contents (run small script).1 ≡ (queue_run (contents small) script).1)
run_refines_example = run_refines script small small-IsValid

run-small : (run small script).0 ≡ done ∷ flag true ∷ got none ∷ flag false ∷ flag true ∷ []
unfolding run step retrieve read_fd append
run-small = refl
