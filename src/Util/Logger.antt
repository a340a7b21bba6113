-- ===== src/Util/Logger.antt =====
-- Logger and its macros of gdrpc/util/log.hpp and log.cpp, and the way of a line from there through
-- Util/AsyncLog to Util/LogFile, where `setOutput` was given `AsyncLogging::append`. The text of the
-- time and the number of the thread are part of a statement, with what was streamed.
pub mod Written
mod Tests
use gd_rpc.Base.{
  ℕ, zero, suc, List, [], ◌∷◌, ◌++◌, Bool, true, false, leb, if◌then◌else◌, Option, none, some,
}
use gd_rpc.Base.Int.{ℤ}
use gd_rpc.Text.Decimal.{print_int}
use gd_rpc.Util.AsyncLog.{
  Event, appends, turns, Running, step, taken, too_many, to_write, AsyncLogging,
}

pub data LogLevel : Type 0 where
  debug info warn fatal : LogLevel

-- Where the level stands in the enumeration.
abbrev pub rank : LogLevel → ℕ
rank debug = 0
rank info = 1
rank warn = 2
rank fatal = 3

-- `LogLevelName`, each of six bytes.
abbrev pub log_level_name : LogLevel → List ℕ
log_level_name debug = b'D' ∷ b'E' ∷ b'B' ∷ b'U' ∷ b'G' ∷ b' ' ∷ []
log_level_name info = b'I' ∷ b'N' ∷ b'F' ∷ b'O' ∷ b' ' ∷ b' ' ∷ []
log_level_name warn = b'W' ∷ b'A' ∷ b'R' ∷ b'N' ∷ b' ' ∷ b' ' ∷ []
log_level_name fatal = b'F' ∷ b'A' ∷ b'T' ∷ b'A' ∷ b'L' ∷ b' ' ∷ []

-- A use of one of the macros; `func` is `__func__`, `message` what is streamed.
pub record Statement : Type 0 where
  pub level : LogLevel
  pub file : List ℕ
  pub line : ℤ
  pub func : List ℕ
  pub time : List ℕ
  pub tid : ℤ
  pub message : List ℕ

-- The test of the macro; LOG_WARN and LOG_FATAL have none.
abbrev pub is_logged : LogLevel → LogLevel → Bool
is_logged log_level debug = leb (rank log_level) (rank debug)
is_logged log_level info = leb (rank log_level) (rank info)
is_logged log_level warn = true
is_logged log_level fatal = true

-- Only LOG_DEBUG passes the name of the function.
abbrev pub func_of : Statement → List ℕ
func_of s = elim s.level [ debug ↦ s.func | _ ↦ [] ]

abbrev pub func_part : List ℕ → List ℕ
func_part [] = []
func_part (c ∷ cs) = (c ∷ cs) ++ (b':' ∷ [])

-- What the constructor streams, then the message, then what the destructor streams.
unfoldable pub line_start : Statement → List ℕ
unfolding print_int
line_start s =
    s.time ++ (b' ' ∷ (print_int s.tid ++ (b' ' ∷ (log_level_name s.level ++ (b' ' ∷ [])))))

unfoldable pub line_end : Statement → List ℕ
unfolding print_int
line_end s =
    b' '
    ∷ b'-'
    ∷ b' '
    ∷ (s.file ++ (b':' ∷ (func_part (func_of s) ++ (print_int s.line ++ (b'\n' ∷ [])))))

unfoldable pub line_of : Statement → List ℕ
unfolding line_start line_end
line_of s = line_start s ++ (s.message ++ line_end s)

-- The threads that log and the writer, one after the other; a turn has its notice.
pub data Happening : Type 0 where
  sets_level : LogLevel → Happening
  says : Statement → Happening
  writes : List ℕ → Happening

-- What the asynchronous log is told.
unfoldable pub events_of : LogLevel → List Happening → List Event
unfolding line_of
events_of log_level [] = []
events_of log_level (sets_level l ∷ hs) = events_of l hs
events_of log_level (says s ∷ hs) =
    let rest = events_of log_level hs in
    if is_logged log_level s.level then appends (line_of s) ∷ rest else rest
events_of log_level (writes notice ∷ hs) = turns notice ∷ events_of log_level hs

-- The calls of `file_.append` in a turn of the writer.
abbrev pub calls_of : List ℕ → AsyncLogging → List (List ℕ)
calls_of notice a = (if too_many (taken a) then notice ∷ [] else []) ++ to_write (taken a)

abbrev pub step_calls : Event → Running → List (List ℕ)
step_calls (appends line) r = []
step_calls (turns notice) (w, a) = calls_of notice a

abbrev pub calls_after : Option Running → (Running → List (List ℕ)) → List (List ℕ)
calls_after none k = []
calls_after (some r) k = k r

unfoldable pub file_calls : ℕ → List Event → Running → List (List ℕ)
file_calls size [] r = []
file_calls size (e ∷ es) r = step_calls e r ++ calls_after (step size e r).1 (file_calls size es)

-- Each with the time that it finds; `clock` tells that of the n-th.
abbrev pub timed : (ℕ → ℕ) → ℕ → List (List ℕ) → List (ℕ × List ℕ)
timed clock n [] = []
timed clock n (b ∷ bs) = (clock n, b) ∷ timed clock (suc n) bs
