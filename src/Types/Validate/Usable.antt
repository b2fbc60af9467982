-- ===== src/Types/Validate/Usable.antt =====
-- What a configuration that `validate` of core/src/types.cpp accepts is good for.
use Prim.Native.String.{String, ◌++◌}
use py_net_ft.Common.{
  ℕ, ◌-◌, ◌^◌, ◌≤◌, ◌<◌, ◌≡◌, refl, Bool, true, false, ◌&&◌, ◌||◌, not, Option, none, some, arith,
  ltb,
}
use py_net_ft.Common.Int.{ℤ, pos, negsuc}
use py_net_ft.Exception.{invalid_argument, ok, require, bind_ok, then_ok, require_ok}
use py_net_ft.Double.{Double}
use py_net_ft.Time.{checked_duration, checked_deadline}
use py_net_ft.Types.{Calibration, Config}
use py_net_ft.Types.Validate.{
  is_blank, known_force, known_torque, require_port, require_positive_finite, require_safe_timeout,
  minimum_count, require_safe_count, validate_calibration, validate_override, validate_config,
}

abbrev pub IsPort : ℤ → Type 0
IsPort p = (n : ℕ) × (p ≡ pos n) × (1 ≤ n) × (n ≤ 65535)

require_port-IsPort : (name : String) (p : ℤ) → require_port name p ≡ ok tt → IsPort p
unfolding require_port
require_port-IsPort name (pos n) e =
    let p = require_ok _ _ e in (n, refl, ground arith, ground arith)
require_port-IsPort name (negsuc n) e = ground arith

module _ {F : Type 0} ⦃d : Double F⦄ where
  open d use {of_nat, lt, le, is_finite, widen, long_of_nat, long_mul, long_le, long_ceil}

  -- What holds of an override.
  abbrev pub IsSafe : Calibration F → Type 0
  IsSafe k =
      (lt k.counts_per_force_unit minimum_count ≡ false)
      × (lt k.counts_per_torque_unit minimum_count ≡ false)
      × (known_force k.force_unit ≡ true)
      × (known_torque k.torque_unit ≡ true)

  abbrev pub IsSafeOverride : Option (Calibration F) → Type 0
  IsSafeOverride none = Unit
  IsSafeOverride (some k) = IsSafe k

  -- Its milliseconds, rounded up, are below the greatest `long`.
  abbrev pub IsInHttpRange : F → Type 0
  IsInHttpRange x =
      long_le (long_of_nat (2 ^ 63 - 1)) (long_ceil (long_mul (widen x) (long_of_nat 1000))) ≡ false

  -- Finite, positive, and at least one tick of the clock.
  pub record IsTimeout (x : F) : Type 0 where
    pub finite : is_finite x ≡ true
    pub positive : le x (of_nat 0) ≡ false
    pub ticks : ℕ
    pub ticks_eq : checked_duration x ≡ ok ticks
    pub ticks_pos : 0 < ticks

  pub record IsUsable (c : Config F) : Type 0 where
    pub host : is_blank c.sensor_host ≡ false
    pub rdt_port : IsPort c.rdt_port
    pub http_port : IsPort c.http_port
    pub receive_timeout : IsTimeout c.receive_timeout
    pub connect_timeout : IsTimeout c.configuration_connect_timeout
    pub configuration_timeout : IsTimeout c.configuration_timeout
    pub initial_delay : IsTimeout c.reconnect_initial_delay
    pub max_delay : IsTimeout c.reconnect_max_delay
    pub delays : lt c.reconnect_max_delay c.reconnect_initial_delay ≡ false
    pub rate_finite : is_finite c.sample_rate_limit_hz ≡ true
    pub rate_not_negative : lt c.sample_rate_limit_hz (of_nat 0) ≡ false
    pub connect_in_range : IsInHttpRange c.configuration_connect_timeout
    pub total_in_range : IsInHttpRange c.configuration_timeout
    pub calibration_safe : IsSafeOverride c.calibration_override

  positive_ok :
      (name : String) (x : F)
      → require_positive_finite name x ≡ ok tt
      → (is_finite x ≡ true) × (le x (of_nat 0) ≡ false)
  unfolding require_positive_finite
  positive_ok name x e = let p = require_ok _ _ e in ground arith

  require_safe_timeout-IsTimeout :
      (name : String) (x : F) (http : Bool) (now : ℕ)
      → require_safe_timeout name x http now ≡ ok tt
      → IsTimeout x
  unfolding require_safe_timeout
  require_safe_timeout-IsTimeout name x http now e =
      let (p, e1) = then_ok (require_positive_finite name x) _ tt e in
      let (ticks, q, e2) = bind_ok (checked_duration x) _ tt e1 in
      let (r, e3) =
        then_ok
          (require (ltb 0 ticks)
            (invalid_argument (name ++ " is below the steady-clock resolution")))
          _ tt e2 in
      let w = require_ok (ltb 0 ticks) _ r in
      let (a, b) = positive_ok name x p in
      record { finite = a; positive = b; ticks = ticks; ticks_eq = q; ticks_pos = ground arith }

  require_safe_timeout-IsInHttpRange :
      (name : String) (x : F) (now : ℕ)
      → require_safe_timeout name x true now ≡ ok tt
      → IsInHttpRange x
  unfolding require_safe_timeout
  require_safe_timeout-IsInHttpRange name x now e =
      let (p, e1) = then_ok (require_positive_finite name x) _ tt e in
      let (ticks, q, e2) = bind_ok (checked_duration x) _ tt e1 in
      let (r, e3) =
        then_ok
          (require (ltb 0 ticks)
            (invalid_argument (name ++ " is below the steady-clock resolution")))
          _ tt e2 in
      let (deadline, t, e4) = bind_ok (checked_deadline now x) _ tt e3 in
      let w =
        require_ok
          (not (
            long_le (long_of_nat (2 ^ 63 - 1)) (long_ceil (long_mul (widen x) (long_of_nat 1000)))))
          _ e4 in
      ground arith

  count_ok :
      (name : String) (x : F) → require_safe_count name x ≡ ok tt → lt x minimum_count ≡ false
  unfolding require_safe_count
  count_ok name x e =
      let (p, e1) = then_ok (require_positive_finite name x) _ tt e in
      let q = require_ok _ _ e1 in ground arith

  pub validate_calibration-IsSafe : (k : Calibration F) → validate_calibration k ≡ ok tt → IsSafe k
  unfolding validate_calibration
  validate_calibration-IsSafe k e =
      let (p, e1) =
        then_ok (require_safe_count "counts_per_force_unit" k.counts_per_force_unit) _ tt e in
      let (q, e2) =
        then_ok (require_safe_count "counts_per_torque_unit" k.counts_per_torque_unit) _ tt e1 in
      let r = require_ok (known_force k.force_unit && known_torque k.torque_unit) _ e2 in
      (
        count_ok "counts_per_force_unit" _ p,
        count_ok "counts_per_torque_unit" _ q,
        ground arith,
        ground arith,
      )

  validate_override-IsSafeOverride :
      (o : Option (Calibration F)) → validate_override o ≡ ok tt → IsSafeOverride o
  validate_override-IsSafeOverride none e = tt
  validate_override-IsSafeOverride (some k) e = validate_calibration-IsSafe k e

  -- A configuration that is accepted has a host that is not blank, ports in range, five timeouts that are
  -- finite, positive and at least a tick long, two of them within the range of the HTTP timer, a first delay
  -- that is not above the greatest, a rate that is finite and not negative, and, where it overrides the
  -- calibration, known units and divisors that are not below the least safe one.
  pub validate_config-IsUsable :
      (c : Config F) (clock : ℕ → ℕ) → validate_config c clock ≡ ok tt → IsUsable c
  unfolding validate_config
  validate_config-IsUsable c clock e =
      let (p1, e1) =
        then_ok
          (require (not (is_blank c.sensor_host))
            (invalid_argument "sensor_host must not be blank"))
          _ tt e in
      let (p2, e2) = then_ok (require_port "rdt_port" c.rdt_port) _ tt e1 in
      let (p3, e3) = then_ok (require_port "http_port" c.http_port) _ tt e2 in
      let (p4, e4) =
        then_ok (require_safe_timeout "receive_timeout" c.receive_timeout false (clock 0)) _ tt
          e3 in
      let (p5, e5) =
        then_ok
          (require_safe_timeout "configuration_connect_timeout" c.configuration_connect_timeout true
            (clock 1))
          _ tt e4 in
      let (p6, e6) =
        then_ok
          (require_safe_timeout "configuration_timeout" c.configuration_timeout true (clock 2)) _ tt
          e5 in
      let (p7, e7) =
        then_ok
          (require_safe_timeout "reconnect_initial_delay" c.reconnect_initial_delay false (clock 3))
          _ tt e6 in
      let (p8, e8) =
        then_ok (require_safe_timeout "reconnect_max_delay" c.reconnect_max_delay false (clock 4)) _
          tt e7 in
      let (p9, e9) =
        then_ok
          (require (not (lt c.reconnect_max_delay c.reconnect_initial_delay))
            (invalid_argument "reconnect_max_delay must not be below reconnect_initial_delay"))
          _ tt e8 in
      let (p10, e10) =
        then_ok
          (require
            (not (not (is_finite c.sample_rate_limit_hz) || lt c.sample_rate_limit_hz (of_nat 0)))
            (invalid_argument "sample_rate_limit_hz must be finite and non-negative"))
          _ tt e9 in
      let host = require_ok (not (is_blank c.sensor_host)) _ p1 in
      let delays = require_ok (not (lt c.reconnect_max_delay c.reconnect_initial_delay)) _ p9 in
      let rate =
        require_ok
          (not (not (is_finite c.sample_rate_limit_hz) || lt c.sample_rate_limit_hz (of_nat 0))) _
          p10 in
      record {
        host = ground arith;
        rdt_port = require_port-IsPort "rdt_port" _ p2;
        http_port = require_port-IsPort "http_port" _ p3;
        receive_timeout = require_safe_timeout-IsTimeout "receive_timeout" _ false (clock 0) p4;
        connect_timeout =
            require_safe_timeout-IsTimeout "configuration_connect_timeout" _ true (clock 1) p5;
        configuration_timeout =
            require_safe_timeout-IsTimeout "configuration_timeout" _ true (clock 2) p6;
        initial_delay =
            require_safe_timeout-IsTimeout "reconnect_initial_delay" _ false (clock 3) p7;
        max_delay = require_safe_timeout-IsTimeout "reconnect_max_delay" _ false (clock 4) p8;
        delays = ground arith;
        rate_finite = ground arith;
        rate_not_negative = ground arith;
        connect_in_range =
            require_safe_timeout-IsInHttpRange "configuration_connect_timeout" _ (clock 1) p5;
        total_in_range = require_safe_timeout-IsInHttpRange "configuration_timeout" _ (clock 2) p6;
        calibration_safe = validate_override-IsSafeOverride c.calibration_override e10;
      }
