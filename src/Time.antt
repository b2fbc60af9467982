-- ===== src/Time.antt =====
-- core/src/detail/time.hpp. A `steady_clock::time_point` is a count of nanoseconds since the epoch of the
-- clock, which is `time_point{}`; a `duration<double>` is a count of seconds.
use py_net_ft.Common.{ℕ, ◌+◌, ◌-◌, ◌^◌, not, ◌||◌, if◌then◌else◌, ltb}
use py_net_ft.Exception.{Result, ok, throws, invalid_argument, ◌>>=◌}
use py_net_ft.Double.{Double}

abbrev pub ticks_per_second : ℕ
ticks_per_second = 1_000_000_000

-- The greatest `std::int64_t`, of which ticks are counted.
abbrev pub max_ticks : ℕ
max_ticks = 2 ^ 63 - 1

module _ {F : Type 0} ⦃d : Double F⦄ where
  open d use {
    Long, widen, long_of_nat, long_mul, long_div, long_lt, long_le, long_is_finite, long_truncate,
    div, of_nat,
  }

  -- A difference of time points as seconds.
  unfoldable pub seconds_of : ℕ → F
  seconds_of ticks = div (of_nat ticks) (of_nat ticks_per_second)

  unfoldable pub checked_duration : F → Result ℕ
  checked_duration duration =
      let ticks =
        long_div (long_mul (widen duration) (long_of_nat ticks_per_second)) (long_of_nat 1) in
      if not (long_is_finite ticks)
        || long_lt ticks (long_of_nat 0)
        || long_le (long_of_nat max_ticks) ticks
      then throws (invalid_argument "duration is outside the supported steady-clock range")
      else ok (long_truncate ticks)

  unfoldable pub checked_deadline : ℕ → F → Result ℕ
  checked_deadline origin duration = do
    ticks ← checked_duration duration
    if ltb (max_ticks - ticks) origin
        then throws (invalid_argument "deadline is outside the supported steady-clock range")
        else ok (origin + ticks)
