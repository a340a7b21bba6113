-- ===== src/Util/LogFile.antt =====
-- AsyncLogging::LogFile of gdrpc/util/async_log.hpp and async_log.cpp: the file that the log is
-- written to, and the next one when it is large. What it does to its stream is the list that its
-- functions return; `now` is what the clock says in the call. The text of a time and the name of the
-- host come from the system. A file is closed for its size alone: nothing in the code looks at the date,
-- although README.md promises that the log rolls by date too.
pub mod Groups
pub mod Files
mod Tests
use gd_rpc.Base.{
  ℕ, zero, suc, ◌+◌, ◌-◌, List, [], ◌∷◌, ◌++◌, Bool, true, false, Option, none, some, ltb, leb,
  if◌then◌else◌, length,
}
use gd_rpc.Base.Int.{ℤ}
use gd_rpc.Text.{lookup_text, insert_text}
use gd_rpc.Text.Decimal.{print_int}

-- `get_time` of Timestamp, which is `strftime`; what `gethostname` gives, if it does not fail.
pub record System : Type 0 where
  pub get_time : ℕ → List ℕ
  pub host : Option (List ℕ)
  pub pid : ℤ

pub record Settings : Type 0 where
  pub basename : List ℕ
  pub roll_size : ℕ
  pub flush_interval : ℕ
  pub check_every_n : ℕ

pub record LogFile : Type 0 where
  pub count : ℕ
  pub last_roll : ℕ
  pub last_flush : ℕ
  pub cur_len : ℕ

pub data FileOp : Type 0 where
  opened : List ℕ → FileOp
  wrote : List ℕ → FileOp
  flushed closed : FileOp

-- "unknownhost"
abbrev pub host_name : Option (List ℕ) → List ℕ
host_name none = b'u' ∷ b'n' ∷ b'k' ∷ b'n' ∷ b'o' ∷ b'w' ∷ b'n' ∷ b'h' ∷ b'o' ∷ b's' ∷ b't' ∷ []
host_name (some h) = h

abbrev pub name_end : System → List ℕ
name_end sys =
    host_name sys.host ++ (b'.' ∷ (print_int sys.pid ++ (b'.' ∷ b'l' ∷ b'o' ∷ b'g' ∷ [])))

unfoldable pub log_file_name : System → List ℕ → ℕ → List ℕ
log_file_name sys basename now = basename ++ (sys.get_time now ++ name_end sys)

module _ (sys : System) (set : Settings) where
  unfoldable pub new_log_file : ℕ → List FileOp × LogFile
  new_log_file now = (
    opened (log_file_name sys set.basename now) ∷ [],
    record { count = 0; last_roll = now; last_flush = now; cur_len = 0 },
  )

  -- No new name before a second has passed.
  unfoldable pub roll_file : ℕ → LogFile → List FileOp × LogFile
  roll_file now f =
      if ltb f.last_roll now
      then (
        closed ∷ opened (log_file_name sys set.basename now) ∷ [],
        record f { last_roll = now; last_flush = now },
      )
      else ([], f)

  abbrev pub flush_if : ℕ → LogFile → List FileOp × LogFile
  flush_if now f =
      if ltb set.flush_interval (now - f.last_flush)
      then (flushed ∷ [], record f { last_flush = now })
      else ([], f)

  abbrev pub check_if : ℕ → LogFile → List FileOp × LogFile
  check_if now f =
      if leb set.check_every_n f.count then flush_if now (record f { count = 0 }) else ([], f)

  -- After the bytes are written and counted.
  unfoldable pub after_write : ℕ → LogFile → List FileOp × LogFile
  unfolding roll_file
  after_write now f =
      if ltb set.roll_size f.cur_len
      then (let (ops, f') = roll_file now f in (ops, record f' { cur_len = 0 }))
      else check_if now (record f { count = f.count + 1 })

  unfoldable pub append : ℕ → List ℕ → LogFile → List FileOp × LogFile
  unfolding after_write
  append now bytes f =
      let (ops, f') = after_write now (record f { cur_len = f.cur_len + length bytes }) in
      (wrote bytes ∷ ops, f')

  -- The appends of the writer's thread, each with the time that it finds.
  unfoldable pub append_all : List (ℕ × List ℕ) → LogFile → List FileOp × LogFile
  append_all [] f = ([], f)
  append_all ((now, bytes) ∷ es) f =
      let (ops, f') = append now bytes f in let (more, f'') = append_all es f' in (ops ++ more, f'')

-- The directory: `open` makes the file empty. Bytes in the stream's buffer count as in the file.
pub record Disk : Type 0 where
  pub files : List (List ℕ × List ℕ)
  pub current : List ℕ

abbrev pub contents : Option (List ℕ) → List ℕ
contents none = []
contents (some b) = b

unfoldable pub apply_op : FileOp → Disk → Disk
apply_op (opened name) d = record { files = insert_text name [] d.files; current = name }
apply_op (wrote bytes) d = record d {
  files = insert_text d.current (contents (lookup_text d.current d.files) ++ bytes) d.files;
}
apply_op flushed d = d
apply_op closed d = d

unfoldable pub apply_all : List FileOp → Disk → Disk
apply_all [] d = d
apply_all (op ∷ ops) d = apply_all ops (apply_op op d)
