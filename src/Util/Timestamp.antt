-- ===== src/Util/Timestamp.antt =====
-- Timestamp of gdrpc/util/timestamp.hpp and timestamp.cpp. A time point is the number of nanoseconds
-- since the epoch. The calendar is the C library's: the texts of a second that `put_time` and
-- `strftime` write, as a record, for the seconds up to the end of the year 9999.
pub mod Texts
mod Tests
use gd_rpc.Base.{ℕ, ◌≡◌, ◌<◌, ◌+◌, ◌-◌, ◌*◌, ◌/◌, ◌%◌, List, [], ◌∷◌, ◌++◌, length, replicate}
use gd_rpc.Text.Decimal.{print_nat}

abbrev pub last_second : ℕ
last_second = 253402300799

pub record Calendar : Type 0 where
  -- "%Y%m%d %H:%M:%S" and ".%Y%m%d-%H%M%S."
  pub put_time : ℕ → List ℕ
  pub strftime : ℕ → List ℕ
  pub length-put_time : (s : ℕ) → s < last_second → length (put_time s) ≡ 17
  pub put_time_inj : (s t : ℕ) → s < last_second → t < last_second → put_time s ≡ put_time t → s ≡ t

unfoldable pub get_ms : ℕ → ℕ
get_ms t = t / 1000000

unfoldable pub get_time_t : ℕ → ℕ
get_time_t t = t / 1000000000

-- `std::setfill('0') << std::setw(6)`
unfoldable pub padded : ℕ → List ℕ
unfolding print_nat
padded n = let s = print_nat n in replicate (6 - length s) b'0' ++ s

module _ (c : Calendar) where
  unfoldable pub get_time : ℕ → List ℕ
  unfolding get_time_t
  get_time t = c.strftime (get_time_t t)

  unfoldable pub get_time_format_8601 : ℕ → List ℕ
  unfolding get_time_t padded
  get_time_format_8601 t =
      c.put_time (get_time_t t) ++ (b'.' ∷ (padded (t / 1000 % 1000000) ++ (b'Z' ∷ [])))
