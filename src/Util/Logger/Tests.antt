-- ===== src/Util/Logger/Tests.antt =====
-- A program that logs at three levels, after DEBUG was turned off.
use gd_rpc.Base.{ℕ, ◌≡◌, refl, ap, List, [], ◌∷◌, ◌++◌, some, none, arith}
use gd_rpc.Base.Int.{pos}
use gd_rpc.Text.Decimal.{print_nat, print_int}
use gd_rpc.Util.AsyncLog.{Running, run, step, append, buffer_append, turn, overruns, all_bytes}
use gd_rpc.Util.AsyncLog.Order.{IsCalm, pending, pending_after}
use gd_rpc.Util.LogFile.{System, Settings, apply_all, new_log_file, append_all}
use gd_rpc.Util.LogFile.Groups.{IsInjective}
use gd_rpc.Util.LogFile.Files.{AllKept}
use gd_rpc.Util.Logger.{
  Statement, debug, info, warn, line_of, line_start, line_end, Happening, sets_level, says, writes,
  events_of, file_calls, timed,
}
use gd_rpc.Util.Logger.Written.{said, written_lem}

abbrev system : System
system = record { get_time = λ t. t ∷ []; host = none; pid = pos 7 }

abbrev small : Settings
small = record { basename = b'a' ∷ []; roll_size = 3; flush_interval = 3; check_every_n = 2 }

abbrev head_or_zero : List ℕ → ℕ
head_or_zero [] = 0
head_or_zero (x ∷ xs) = x

system-IsInjective : IsInjective system
system-IsInjective s t e = ap head_or_zero e

abbrev ready : Running
ready = (
  record { new_buffer1 = []; new_buffer2 = [] },
  record { current_buffer = []; next_buffer = some []; buffers = [] },
)

abbrev traced : Statement
traced = record {
  level = debug;
  file = b'f' ∷ [];
  line = pos 3;
  func = b'g' ∷ [];
  time = b't' ∷ [];
  tid = pos 1;
  message = b'm' ∷ [];
}

abbrev told : Statement
told = record traced { level = info }

-- "t 1 DEBUG  m - f:g:3" and a line end.
line_of-traced :
    line_of traced
    ≡ b't' ∷ b' ' ∷ b'1' ∷ b' ' ∷ b'D' ∷ b'E' ∷ b'B' ∷ b'U' ∷ b'G' ∷ b' ' ∷ b' ' ∷ b'm' ∷ b' '
      ∷ b'-' ∷ b' ' ∷ b'f' ∷ b':' ∷ b'g' ∷ b':' ∷ b'3' ∷ b'\n' ∷ []
unfolding line_of line_start line_end print_int print_nat
line_of-traced = refl

abbrev script : List Happening
script =
    says traced
    ∷ sets_level info
    ∷ says told
    ∷ writes []
    ∷ says traced
    ∷ says (record told { level = warn })
    ∷ []

script-IsCalm : IsCalm 30 (events_of debug script) ready
unfolding events_of line_of line_start line_end print_int print_nat run step append buffer_append
    turn overruns
script-IsCalm = (omega arith, (omega arith, (refl, (omega arith, refl))))

written_lem_example :
    let es = events_of debug script in
    let chunks = file_calls 30 es ready in
    let (ops, f) = new_log_file system small 5 in
    let (more, f') = append_all system small (timed (λ n. n) 0 chunks) f in
    AllKept system small chunks
      (apply_all more (apply_all ops (record { files = []; current = [] })))
      f'
    × (all_bytes chunks ++ pending_after (run 30 es ready).1
        ≡ pending ready ++ all_bytes (said debug script))
written_lem_example =
    written_lem system small 30 5 (λ n. n) debug script ready (record { files = []; current = [] })
      system-IsInjective (refl, refl, refl) script-IsCalm
