-- ===== src/Double.antt =====
-- The `double` and `long double` of the C++ implementation, which are not code of the repository: the
-- operations that core/src uses of them, as a parameter, and the IEEE laws that a theorem may rely on.
use py_net_ft.Common.{ℕ, Bool}
use py_net_ft.Common.Int.{ℤ}

pub record Double (F : Type 0) : Type 1 where
  -- `static_cast<double>` of a `std::int32_t`, and of a count of ticks
  pub of_int : ℤ → F
  pub of_nat : ℕ → F
  pub sub : F → F → F
  pub mul : F → F → F
  pub div : F → F → F
  pub lt : F → F → Bool
  pub le : F → F → Bool
  pub eq : F → F → Bool
  pub is_finite : F → Bool
  -- `std::ceil`, and `static_cast<int>` of a number that is in range
  pub ceil : F → F
  pub truncate : F → ℕ
  -- `std::numeric_limits<double>::max()` and `epsilon()`
  pub greatest : F
  pub epsilon : F
  pub one_plus : F → F
  pub Long : Type 0
  pub widen : F → Long
  pub long_of_nat : ℕ → Long
  pub long_mul : Long → Long → Long
  pub long_div : Long → Long → Long
  pub long_lt : Long → Long → Bool
  pub long_le : Long → Long → Bool
  pub long_ceil : Long → Long
  pub long_is_finite : Long → Bool
  -- `static_cast<rep>` of a finite number that is not negative
  pub long_truncate : Long → ℕ
