-- ===== src/Discovery/Options.antt =====
-- The options of core/include/netft/discovery.hpp, and their checks in core/src/discovery.cpp.
use Prim.Native.Char.{code}
use Prim.Native.String.{String, ◌++◌}
use py_net_ft.Common.{ℕ, ◌-◌, ◌^◌, Bool, true, false, ◌&&◌, ◌||◌, not, ◌==◌, leb}
use py_net_ft.Common.Int.{ℤ, pos, negsuc}
use py_net_ft.Exception.{Result, ok, ◌>>=◌, ◌>>◌, require, discovery_error}
use py_net_ft.Double.{Double}
use py_net_ft.Types.{Config}

pub record DiscoveryOptions (F : Type 0) : Type 0 where
  pub sensor_host : String
  pub http_port : ℤ
  pub connect_timeout : F
  pub total_timeout : F

-- The options of a session, from `configuration_for_session` of core/src/detail/client_impl.cpp.
unfoldable pub session_options : {F : Type 0} → Config F → DiscoveryOptions F
session_options c = record {
  sensor_host = c.sensor_host;
  http_port = c.http_port;
  connect_timeout = c.configuration_connect_timeout;
  total_timeout = c.configuration_timeout;
}

abbrev pub is_ascii_space : ℕ → Bool
is_ascii_space c = c == 32 || c == 9 || c == 10 || c == 13 || c == 12 || c == 11

unfoldable pub is_ascii_blank : String → Bool
is_ascii_blank String.[] = true
is_ascii_blank (String.◌∷◌ c s) = is_ascii_space (code c) && is_ascii_blank s

abbrev pub is_port : ℤ → Bool
is_port (pos n) = leb 1 n && leb n 65535
is_port (negsuc n) = false

-- The greatest `long`, of 64 bits, as on Linux and macOS; that of Windows has 32.
abbrev pub max_long : ℕ
max_long = 2 ^ 63 - 1

module _ {F : Type 0} ⦃d : Double F⦄ where
  open d use {
    of_nat, le, is_finite, Long, widen, long_of_nat, long_mul, long_lt, long_ceil, long_is_finite,
    long_truncate,
  }

  abbrev pub rounded_milliseconds : F → Long
  rounded_milliseconds seconds = long_ceil (long_mul (widen seconds) (long_of_nat 1000))

  unfoldable pub timeout_milliseconds : F → String → Result ℕ
  timeout_milliseconds seconds name = do
    require (not (not (is_finite seconds) || le seconds (of_nat 0)))
        (discovery_error (name ++ " must be finite, positive, and representable"))
    require
        (not (
          not (long_is_finite (rounded_milliseconds seconds))
          || long_lt (long_of_nat max_long) (rounded_milliseconds seconds)))
        (discovery_error (name ++ " must be finite, positive, and representable"))
    ok (long_truncate (rounded_milliseconds seconds))

  unfoldable pub validate_options : DiscoveryOptions F → Result (Unit {0})
  unfolding is_ascii_blank timeout_milliseconds
  validate_options o = do
    require (not (is_ascii_blank o.sensor_host)) (discovery_error "sensor_host must not be blank")
    require (is_port o.http_port) (discovery_error "http_port must be in the range 1..65535")
    _ ← timeout_milliseconds o.connect_timeout "connect_timeout"
    _ ← timeout_milliseconds o.total_timeout "total_timeout"
    ok tt
