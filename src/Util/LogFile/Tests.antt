-- ===== src/Util/LogFile/Tests.antt =====
-- Files of more than three bytes, and a clock that stands still for an append.
use gd_rpc.Base.{ℕ, ◌≡◌, refl, ap, List, [], ◌∷◌, none, map}
use gd_rpc.Base.Int.{pos}
use gd_rpc.Util.LogFile.{
  System, Settings, Disk, apply_all, opened, wrote, closed, flushed, log_file_name, new_log_file,
  append_all, append, after_write, roll_file,
}
use gd_rpc.Util.LogFile.Groups.{IsInjective}
use gd_rpc.Util.LogFile.Files.{AllKept, append_all-AllKept}

-- A time as one byte.
abbrev system : System
system = record { get_time = λ t. t ∷ []; host = none; pid = pos 7 }

abbrev small : Settings
small = record { basename = b'a' ∷ []; roll_size = 3; flush_interval = 3; check_every_n = 2 }

abbrev head_or_zero : List ℕ → ℕ
head_or_zero [] = 0
head_or_zero (x ∷ xs) = x

system-IsInjective : IsInjective system
system-IsInjective s t e = ap head_or_zero e

abbrev empty_disk : Disk
empty_disk = record { files = []; current = [] }

-- The second append is over the limit in the second that the file was opened in.
abbrev lines : List (ℕ × List ℕ)
lines = (5, 1 ∷ 2 ∷ []) ∷ (5, 3 ∷ 4 ∷ []) ∷ (9, 5 ∷ []) ∷ (9, 6 ∷ 7 ∷ 8 ∷ []) ∷ (9, 9 ∷ []) ∷ []

-- A file of eight bytes: the length is counted anew though no file was opened.
append_all-lines :
    (append_all system small lines (new_log_file system small 5).1).0
    ≡ wrote (1 ∷ 2 ∷ [])
      ∷ wrote (3 ∷ 4 ∷ [])
      ∷ wrote (5 ∷ [])
      ∷ flushed
      ∷ wrote (6 ∷ 7 ∷ 8 ∷ [])
      ∷ closed
      ∷ opened (log_file_name system (b'a' ∷ []) 9)
      ∷ wrote (9 ∷ [])
      ∷ []
unfolding append_all append after_write roll_file new_log_file
append_all-lines = refl

append_all-AllKept_example :
    let (ops, f) = new_log_file system small 5 in
    let (more, f') = append_all system small lines f in
    AllKept system small (map (λ e. e.1) lines) (apply_all more (apply_all ops empty_disk)) f'
append_all-AllKept_example = append_all-AllKept system small 5 lines empty_disk system-IsInjective
