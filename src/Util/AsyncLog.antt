-- ===== src/Util/AsyncLog.antt =====
-- AsyncLogging of gdrpc/util/async_log.hpp and async_log.cpp: the buffers between the threads that log
-- and the one that writes. A buffer is the bytes in it, of at most `size` (`Buffer::size_`); a moved
-- from `BufferPtr` is `none`. Each function is what happens under one hold of `mutex_`, with what the
-- writer then does on its own buffers; LogFile is the bytes that it is given.
pub mod Order
pub mod Stopping
pub mod Ending
mod EndTests
mod Tests
use gd_rpc.Base.{
  ℕ, zero, suc, ◌+◌, ◌-◌, ◌*◌, List, [], ◌∷◌, ◌++◌, Bool, true, false, Option, none, some, ltb,
  if◌then◌else◌, length, take,
}

abbrev pub Buffer : Type 0
Buffer = List ℕ

abbrev pub buffer_size : ℕ
buffer_size = 4000 * 1024

abbrev pub avail : ℕ → Buffer → ℕ
avail size b = size - length b

-- `Buffer::append` drops what does not fit.
unfoldable pub buffer_append : ℕ → Buffer → List ℕ → Buffer
buffer_append size b line = if ltb (length line) (avail size b) then b ++ line else b

pub record AsyncLogging : Type 0 where
  pub current_buffer : Buffer
  pub next_buffer : Option Buffer
  pub buffers : List Buffer

unfoldable pub new_logging : AsyncLogging
new_logging = record { current_buffer = []; next_buffer = some []; buffers = [] }

abbrev pub next_or_new : Option Buffer → Buffer
next_or_new none = []
next_or_new (some b) = b

unfoldable pub append : ℕ → List ℕ → AsyncLogging → AsyncLogging
append size line a =
    if ltb (length line) (avail size a.current_buffer)
    then record a { current_buffer = buffer_append size a.current_buffer line }
    else record {
      current_buffer = buffer_append size (next_or_new a.next_buffer) line;
      next_buffer = none;
      buffers = a.buffers ++ (a.current_buffer ∷ []);
    }

-- The writer's `newBuffer1` and `newBuffer2`, both there at the top of its loop.
pub record Writer : Type 0 where
  pub new_buffer1 : Buffer
  pub new_buffer2 : Buffer

unfoldable pub new_writer : Writer
new_writer = record { new_buffer1 = []; new_buffer2 = [] }

-- What the writer takes from the loggers.
abbrev pub taken : AsyncLogging → List Buffer
taken a = a.buffers ++ (a.current_buffer ∷ [])

-- What the writer leaves them with: its `newBuffer1`, and its `newBuffer2` if `nextBuffer_` is gone,
-- which is then what remains of `newBuffer2`.
abbrev pub refill : Option Buffer → Buffer → Option Buffer × Option Buffer
refill none new2 = (some new2, none)
refill (some b) new2 = (some b, some new2)

-- More than 25 buffers are cut to the first two, after a notice.
abbrev pub too_many : List Buffer → Bool
too_many bs = ltb 25 (length bs)

abbrev pub to_write : List Buffer → List Buffer
to_write bs = if too_many bs then take 2 bs else bs

abbrev pub all_bytes : List Buffer → List ℕ
all_bytes [] = []
all_bytes (b ∷ bs) = b ++ all_bytes bs

-- `back()` and `pop_back()` of the buffers written, with the assertion before them; a buffer taken
-- back is reset.
abbrev pub pop_back : List Buffer → Option (List Buffer)
pop_back [] = none
pop_back (b ∷ []) = some []
pop_back (b ∷ c ∷ bs) = elim (pop_back (c ∷ bs)) [ none ↦ none | some r ↦ some (b ∷ r) ]

abbrev pub second_buffer : Option Buffer → List Buffer → Option Buffer
second_buffer (some b) bs = some b
second_buffer none bs = elim (pop_back bs) [ none ↦ none | some _ ↦ some [] ]

-- A failed assertion is `none`.
abbrev pub take_back : Option Buffer → List Buffer → Option Writer
take_back new2 bs = elim (pop_back bs) [
  | none ↦ none
  | some rest ↦ elim (second_buffer new2 rest) [
    | none ↦ none
    | some b ↦ some (record { new_buffer1 = []; new_buffer2 = b })
  ]
]

-- One turn of the loop of `threadFunc`: what `file_` is given, the writer unless an assertion
-- fails, and the loggers' side.
unfoldable pub turn : List ℕ → Writer → AsyncLogging → List ℕ × Option Writer × AsyncLogging
turn notice w a =
    let bs = taken a in
    let (next, new2) = refill a.next_buffer w.new_buffer2 in
    (
      (if too_many bs then notice else []) ++ all_bytes (to_write bs),
      take_back new2 (to_write bs),
      record { current_buffer = w.new_buffer1; next_buffer = next; buffers = [] },
    )

-- Whether a turn drops buffers.
unfoldable pub overruns : AsyncLogging → Bool
overruns a = too_many (taken a)

-- The logging threads and the writer, one after the other.
pub data Event : Type 0 where
  appends : List ℕ → Event
  turns : List ℕ → Event

abbrev pub Running : Type 0
Running = Writer × AsyncLogging

-- What is written, and the state unless an assertion failed.
unfoldable pub step : ℕ → Event → Running → List ℕ × Option Running
step size (appends line) (w, a) = ([], some (w, append size line a))
step size (turns notice) (w, a) =
    let (out, w', a') = turn notice w a in (out, elim w' [ none ↦ none | some v ↦ some (v, a') ])

abbrev pub and_run :
    List ℕ → Option Running → (Running → List ℕ × Option Running) → List ℕ × Option Running
and_run out none k = (out, none)
and_run out (some r) k = let (out', r') = k r in (out ++ out', r')

unfoldable pub run : ℕ → List Event → Running → List ℕ × Option Running
run size [] r = ([], some r)
run size (e ∷ es) r = let (out, r') = step size e r in and_run out r' (run size es)
