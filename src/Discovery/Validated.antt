-- ===== src/Discovery/Validated.antt =====
-- A configuration that `validate` of core/src/types.cpp accepts can be discovered with:
-- `validate_options` of core/src/discovery.cpp never refuses what a session asks for.
use Prim.Native.String.{String}
use py_net_ft.Common.{ℕ, ◌≡◌, refl, ◌∙◌, Bool, true, false, not, arith}
use py_net_ft.Common.Int.{ℤ, pos, negsuc}
use py_net_ft.Exception.{Result, ok, ◌>>=◌, ◌>>◌, require, Exception}
use py_net_ft.Double.{Double}
use py_net_ft.Types.{Config}
use py_net_ft.Types.Validate.{is_blank, validate_config}
use py_net_ft.Types.Validate.Usable.{IsPort, IsTimeout, IsInHttpRange, validate_config-IsUsable}
use py_net_ft.Discovery.Options.{
  session_options, is_ascii_blank, is_port, max_long, rounded_milliseconds, timeout_milliseconds,
  validate_options,
}

is_ascii_blank-is_blank : (s : String) → is_ascii_blank s ≡ is_blank s
unfolding is_ascii_blank is_blank
is_ascii_blank-is_blank String.[] = refl
is_ascii_blank-is_blank (String.◌∷◌ c s) = ground (arith, is_ascii_blank-is_blank s)

validate-IsPort : (p : ℤ) → IsPort p → is_port p ≡ true
validate-IsPort (pos n) (m, e, h, k) = ground arith
validate-IsPort (negsuc n) (m, e, h, k) = ground arith

checks_pass :
    (a b : Bool) (x y : Exception) (m n : Result ℕ) (i j : ℕ)
    → a ≡ false
    → b ≡ true
    → m ≡ ok i
    → n ≡ ok j
    → require (not a) x >> (require b y >> (m >>= λ _. n >>= λ _. ok (tt {0}))) ≡ ok tt
checks_pass a b x y m n i j e f g h = ground (arith, e, f, g, h)

module _ (F : Type 0) ⦃d : Double F⦄ where
  open d use {of_nat, le, is_finite, long_of_nat, long_lt, long_le, long_is_finite}

  -- What IEEE arithmetic gives, for the milliseconds of a finite and positive number of seconds: they
  -- are no NaN, so below a bound they are finite, and not above it.
  pub record HasMilliseconds : Type 0 where
    pub finite_below :
        (x : F)
        → is_finite x ≡ true
        → le x (of_nat 0) ≡ false
        → long_le (long_of_nat max_long) (rounded_milliseconds x) ≡ false
        → long_is_finite (rounded_milliseconds x) ≡ true
    pub not_above :
        (x : F)
        → is_finite x ≡ true
        → le x (of_nat 0) ≡ false
        → long_le (long_of_nat max_long) (rounded_milliseconds x) ≡ false
        → long_lt (long_of_nat max_long) (rounded_milliseconds x) ≡ false

module _ {F : Type 0} ⦃d : Double F⦄ where
  open d use {long_truncate}

  timeout_milliseconds-accepts :
      HasMilliseconds F
      → (x : F) (name : String) → IsTimeout x
      → IsInHttpRange x
      → (n : ℕ) × (timeout_milliseconds x name ≡ ok n)
  unfolding timeout_milliseconds
  timeout_milliseconds-accepts l x name t h = (
    long_truncate (rounded_milliseconds x),
    ground (
      arith,
      t.finite,
      t.positive,
      l.finite_below x t.finite t.positive h,
      l.not_above x t.finite t.positive h,
    ),
  )

  -- Whatever configuration is accepted, given what IEEE arithmetic says of milliseconds
  -- (`HasMilliseconds`), `discover_sensor` accepts the options that a session makes of it: the host, the
  -- port and both timeouts.
  pub validate_options-session_options :
      (l : HasMilliseconds F) (c : Config F) (clock : ℕ → ℕ)
      → validate_config c clock ≡ ok tt
      → validate_options (session_options c) ≡ ok tt
  unfolding validate_options session_options
  validate_options-session_options l c clock e =
      let u = validate_config-IsUsable c clock e in
      let (n, p) =
        timeout_milliseconds-accepts l c.configuration_connect_timeout "connect_timeout"
          u.connect_timeout u.connect_in_range in
      let (m, q) =
        timeout_milliseconds-accepts l c.configuration_timeout "total_timeout"
          u.configuration_timeout u.total_in_range in
      checks_pass _ _ _ _ _ _ n m (is_ascii_blank-is_blank c.sensor_host ∙ u.host)
        (validate-IsPort c.http_port u.http_port) p q
