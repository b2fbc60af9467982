-- ===== src/Types/Validate.antt =====
-- The checks of core/src/types.cpp: `validate` of a calibration and of a configuration. A check that
-- passes returns `tt`.
pub mod Usable
use Prim.Native.Char.{Char, code}
use Prim.Native.String.{String, ◌++◌}
use py_net_ft.Common.{
  ℕ, ◌+◌, ◌-◌, ◌^◌, ◌≤◌, ◌<◌, ◌≡◌, Bool, true, false, ◌&&◌, ◌||◌, not, Option, none, some, leb, ltb,
  ◌==◌, if◌then◌else◌, arith,
}
use py_net_ft.Common.Int.{ℤ, pos, negsuc}
use py_net_ft.Exception.{Result, ok, throws, invalid_argument, ◌>>=◌, ◌>>◌, require}
use py_net_ft.Double.{Double}
use py_net_ft.Time.{checked_duration, checked_deadline}
use py_net_ft.Types.{ForceUnit, TorqueUnit, Calibration, Config}

-- `std::isspace` in the classic locale.
abbrev is_space : ℕ → Bool
is_space c = c == 32 || leb 9 c && leb c 13

-- An empty text is blank too.
unfoldable pub is_blank : String → Bool
is_blank String.[] = true
is_blank (String.◌∷◌ c s) = is_space (code c) && is_blank s

abbrev pub known_force : ForceUnit → Bool
known_force ForceUnit.unknown = false
known_force _ = true

abbrev pub known_torque : TorqueUnit → Bool
known_torque TorqueUnit.unknown = false
known_torque _ = true

unfoldable pub require_port : String → ℤ → Result (Unit {0})
require_port name (pos value) =
    require (leb 1 value && leb value 65535)
      (invalid_argument (name ++ " must be in the range 1..65535"))
require_port name (negsuc value) =
    throws (invalid_argument (name ++ " must be in the range 1..65535"))

module _ {F : Type 0} ⦃d : Double F⦄ where
  open d use {
    of_int, of_nat, mul, div, lt, le, is_finite, greatest, epsilon, Long, widen, long_of_nat,
    long_mul, long_le, long_ceil, one_plus,
  }

  unfoldable pub require_positive_finite : String → F → Result (Unit {0})
  require_positive_finite name value =
      require (not (not (is_finite value) || le value (of_nat 0)))
        (invalid_argument (name ++ " must be finite and positive"))

  -- `http` also holds the value to the range of the timer of libcurl, a `long` of 64 bits.
  unfoldable pub require_safe_timeout : String → F → Bool → ℕ → Result (Unit {0})
  unfolding require_positive_finite
  require_safe_timeout name value http now = do
    require_positive_finite name value
    ticks ← checked_duration value
    require (ltb 0 ticks) (invalid_argument (name ++ " is below the steady-clock resolution"))
    _ ← checked_deadline now value
    require
        (not (
          http
          && long_le (long_of_nat (2 ^ 63 - 1))
              (long_ceil (long_mul (widen value) (long_of_nat 1000)))))
        (invalid_argument (name ++ " is outside the HTTP timer range"))

  -- The least divisor by which every raw count stays representable.
  abbrev pub minimum_count : F
  minimum_count = mul (div (of_nat (2 ^ 31)) greatest) (one_plus epsilon)

  unfoldable pub require_safe_count : String → F → Result (Unit {0})
  unfolding require_positive_finite
  require_safe_count name value = do
    require_positive_finite name value
    require (not (lt value minimum_count))
        (invalid_argument (name ++ " cannot represent the full raw count range"))

  unfoldable pub validate_calibration : Calibration F → Result (Unit {0})
  unfolding require_safe_count
  validate_calibration c = do
    require_safe_count "counts_per_force_unit" c.counts_per_force_unit
    require_safe_count "counts_per_torque_unit" c.counts_per_torque_unit
    require (known_force c.force_unit && known_torque c.torque_unit)
        (invalid_argument "calibration units must be known")

  abbrev pub validate_override : Option (Calibration F) → Result (Unit {0})
  validate_override none = ok tt
  validate_override (some c) = validate_calibration c

  -- `clock` gives the readings of the steady clock, of which each of the five timeouts takes one.
  unfoldable pub validate_config : Config F → (ℕ → ℕ) → Result (Unit {0})
  unfolding is_blank require_port require_safe_timeout validate_calibration
  validate_config c clock = do
    require (not (is_blank c.sensor_host)) (invalid_argument "sensor_host must not be blank")
    require_port "rdt_port" c.rdt_port
    require_port "http_port" c.http_port
    require_safe_timeout "receive_timeout" c.receive_timeout false (clock 0)
    require_safe_timeout "configuration_connect_timeout" c.configuration_connect_timeout true
        (clock 1)
    require_safe_timeout "configuration_timeout" c.configuration_timeout true (clock 2)
    require_safe_timeout "reconnect_initial_delay" c.reconnect_initial_delay false (clock 3)
    require_safe_timeout "reconnect_max_delay" c.reconnect_max_delay false (clock 4)
    require (not (lt c.reconnect_max_delay c.reconnect_initial_delay))
        (invalid_argument "reconnect_max_delay must not be below reconnect_initial_delay")
    require (not (not (is_finite c.sample_rate_limit_hz) || lt c.sample_rate_limit_hz (of_nat 0)))
        (invalid_argument "sample_rate_limit_hz must be finite and non-negative")
    validate_override c.calibration_override
