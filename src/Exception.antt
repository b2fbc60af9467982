-- ===== src/Exception.antt =====
-- The exceptions that the core throws and catches, with the text of `what()`, and results that may throw.
use Prim.Native.String.{String}
use py_net_ft.Common.{Option, none, some, Bool, true, false, ◌≡◌, refl, ap, arith}

pub data Exception : Type 0 where
  invalid_argument : String → Exception
  logic_error : String → Exception
  runtime_error : String → Exception
  not_connected_error : String → Exception
  discovery_error : String → Exception
  system_error : String → Exception
  -- thrown by something that is no `std::exception`
  unknown : Exception

-- What `catch (const std::exception &error)` sees, or nothing for `catch (...)`.
abbrev pub what : Exception → Option String
what (invalid_argument m) = some m
what (logic_error m) = some m
what (runtime_error m) = some m
what (not_connected_error m) = some m
what (discovery_error m) = some m
what (system_error m) = some m
what unknown = none

pub data Result {ℓ} (A : Type ℓ) : Type ℓ where
  ok : A → Result A
  throws : Exception → Result A

infixl 5 ◌>>=◌ ◌>>◌
abbrev pub ◌>>=◌ {ℓ κ} : {A : Type ℓ} {B : Type κ} → Result A → (A → Result B) → Result B
ok a >>= f = f a
throws e >>= f = throws e

abbrev pub ◌>>◌ {ℓ} : {B : Type ℓ} → Result (Unit {0}) → Result B → Result B
m >> k = m >>= λ _. k

-- `if (!test) throw e;`
abbrev pub require : Bool → Exception → Result (Unit {0})
require true e = ok tt
require false e = throws e

-- Inversions of a successful chain.
pub bind_ok {ℓ κ} :
    {A : Type ℓ} {B : Type κ} (m : Result A) (k : A → Result B) (b : B)
    → m >>= k ≡ ok b
    → (a : A) × (m ≡ ok a) × (k a ≡ ok b)
bind_ok (ok a) k b e = (a, refl, e)
bind_ok (throws x) k b e = ground arith

pub then_ok {κ} :
    {B : Type κ} (m : Result (Unit {0})) (k : Result B) (b : B)
    → m >> k ≡ ok b
    → (m ≡ ok tt) × (k ≡ ok b)
then_ok (ok tt) k b e = (refl, e)
then_ok (throws x) k b e = ground arith

pub require_ok : (b : Bool) (e : Exception) → require b e ≡ ok tt → b ≡ true
require_ok true e p = refl
require_ok false e p = ground arith

pub ok_inj {ℓ} : {A : Type ℓ} (x y : A) → ok x ≡ ok y → x ≡ y
ok_inj {A} x y e = ap value e
  where
    value : Result A → A
    value (ok a) = a
    value (throws _) = x
