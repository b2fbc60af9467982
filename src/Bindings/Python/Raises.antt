-- ===== src/Bindings/Python/Raises.antt =====
-- Which exceptions the calls of bindings/python/module.cpp raise in Python for their arguments.
use py_net_ft.Common.{
  subst, sym, ℕ, String, ◌-◌, ◌≡◌, refl, Bool, true, false, not, ◌&&◌, ◌||◌, Option, none, some,
  List, ltb, leb, if_both,
}
use py_net_ft.Common.Int.{ℤ, pos, negsuc}
use py_net_ft.Exception.{Exception, Result, ok, throws, invalid_argument, require, ◌>>=◌, ◌>>◌}
use py_net_ft.Double.{Double}
use py_net_ft.Time.{checked_duration, checked_deadline, max_ticks}
use py_net_ft.Types.{Calibration, Config, Sample}
use py_net_ft.Types.Validate.{
  require_port, require_positive_finite, require_safe_timeout, require_safe_count,
  validate_calibration, validate_override, validate_config,
}
use py_net_ft.Transport.Windows.{new_runtime}
use py_net_ft.Client.Lifecycle.{construct}
use py_net_ft.Bindings.SampleQueue.{SampleQueue, new_queue}
use py_net_ft.Bindings.NativeClient.{
  ReadRound, WaitRound, new_native, read, wait_for_first_sample, require_representable_timeout,
  check_timeout,
}
use py_net_ft.Bindings.Python.{translate, validation_error}

-- A call that returns, or raises `ValidationError`.
pub data RaisesValidation {ℓ} {A : Type ℓ} : Result A → Type ℓ where
  returns : {a : A} → RaisesValidation (ok a)
  raises :
      {e : Exception} (message : String)
      → translate e ≡ validation_error message
      → RaisesValidation (throws e)

invalid {ℓ} :
    {A : Type ℓ} (message : String) → RaisesValidation {A = A} (throws (invalid_argument message))
unfolding translate
invalid message = raises message refl

bind-RaisesValidation {ℓ κ} :
    {A : Type ℓ} {B : Type κ} (m : Result A) (k : A → Result B)
    → RaisesValidation m
    → ((a : A) → RaisesValidation (k a))
    → RaisesValidation (m >>= k)
bind-RaisesValidation (ok a) k p q = q a
bind-RaisesValidation (throws e) k (raises message p) q = raises message p

then-RaisesValidation {κ} :
    {B : Type κ} (m : Result (Unit {0})) (k : Result B)
    → RaisesValidation m
    → RaisesValidation k
    → RaisesValidation (m >> k)
then-RaisesValidation m k p q = bind-RaisesValidation m (λ _. k) p (λ _. q)

require-RaisesValidation :
    (b : Bool) (message : String) → RaisesValidation (require b (invalid_argument message))
require-RaisesValidation true message = returns
require-RaisesValidation false message = invalid message

require_port-RaisesValidation : (name : String) (p : ℤ) → RaisesValidation (require_port name p)
unfolding require_port
require_port-RaisesValidation name (pos n) = require-RaisesValidation (leb 1 n && leb n 65535) _
require_port-RaisesValidation name (negsuc n) = invalid _

module _ {F : Type 0} ⦃d : Double F⦄ where
  open d use {lt, is_finite, of_nat}

  checked_duration-RaisesValidation : (x : F) → RaisesValidation (checked_duration x)
  unfolding checked_duration
  checked_duration-RaisesValidation x = if_both RaisesValidation _ (invalid _) returns

  checked_deadline-RaisesValidation : (t : ℕ) (x : F) → RaisesValidation (checked_deadline t x)
  unfolding checked_deadline
  checked_deadline-RaisesValidation t x =
      bind-RaisesValidation (checked_duration x) _ (checked_duration-RaisesValidation x)
        (λ ticks. if_both RaisesValidation (ltb (max_ticks - ticks) t) (invalid _) returns)

  timeout-RaisesValidation :
      (name : String) (x : F) (http : Bool) (now : ℕ)
      → RaisesValidation (require_safe_timeout name x http now)
  unfolding require_safe_timeout require_positive_finite
  timeout-RaisesValidation name x http now =
      then-RaisesValidation _ _ (require-RaisesValidation _ _) (
        bind-RaisesValidation _ _ (checked_duration-RaisesValidation x) (λ ticks.
          then-RaisesValidation _ _ (require-RaisesValidation (ltb 0 ticks) _) (
            bind-RaisesValidation _ _ (checked_deadline-RaisesValidation now x)
              (λ deadline. require-RaisesValidation _ _))))

  count-RaisesValidation : (name : String) (x : F) → RaisesValidation (require_safe_count name x)
  unfolding require_safe_count require_positive_finite
  count-RaisesValidation name x =
      then-RaisesValidation _ _ (require-RaisesValidation _ _) (require-RaisesValidation _ _)

  validate_calibration-RaisesValidation :
      (k : Calibration F) → RaisesValidation (validate_calibration k)
  unfolding validate_calibration
  validate_calibration-RaisesValidation k =
      then-RaisesValidation _ _ (count-RaisesValidation "counts_per_force_unit" _) (
        then-RaisesValidation _ _ (count-RaisesValidation "counts_per_torque_unit" _)
          (require-RaisesValidation _ _))

  validate_override-RaisesValidation :
      (o : Option (Calibration F)) → RaisesValidation (validate_override o)
  validate_override-RaisesValidation none = returns
  validate_override-RaisesValidation (some k) = validate_calibration-RaisesValidation k

  validate_config-RaisesValidation :
      (c : Config F) (clock : ℕ → ℕ) → RaisesValidation (validate_config c clock)
  unfolding validate_config
  validate_config-RaisesValidation c clock =
      then-RaisesValidation _ _ (require-RaisesValidation _ _) (
        then-RaisesValidation _ _ (require_port-RaisesValidation "rdt_port" c.rdt_port) (
          then-RaisesValidation _ _ (require_port-RaisesValidation "http_port" c.http_port) (
            then-RaisesValidation _ _ (timeout-RaisesValidation "receive_timeout" _ false _) (
              then-RaisesValidation _ _
                (timeout-RaisesValidation "configuration_connect_timeout" _ true _)
                (then-RaisesValidation _ _
                  (timeout-RaisesValidation "configuration_timeout" _ true _)
                  (then-RaisesValidation _ _
                    (timeout-RaisesValidation "reconnect_initial_delay" _ false _)
                    (then-RaisesValidation _ _
                      (timeout-RaisesValidation "reconnect_max_delay" _ false _)
                      (then-RaisesValidation _ _
                        (require-RaisesValidation
                          (not (lt c.reconnect_max_delay c.reconnect_initial_delay))
                          "reconnect_max_delay must not be below reconnect_initial_delay")
                        (then-RaisesValidation _ _
                          (require-RaisesValidation
                            (not (
                              not (is_finite c.sample_rate_limit_hz)
                              || lt c.sample_rate_limit_hz (of_nat 0)))
                            "sample_rate_limit_hz must be finite and non-negative")
                          (validate_override-RaisesValidation c.calibration_override))))))))))

  new_queue-RaisesValidation : (size : ℕ) → RaisesValidation (new_queue {A = Sample F} size)
  unfolding new_queue
  new_queue-RaisesValidation size = if_both RaisesValidation _ (invalid _) returns

  representable-RaisesValidation :
      (x : F) (name : String) → RaisesValidation (require_representable_timeout x name)
  unfolding require_representable_timeout
  representable-RaisesValidation x name =
      then-RaisesValidation _ _ (require-RaisesValidation _ _) (require-RaisesValidation _ _)

  check_timeout-RaisesValidation : (limit : Option F) → RaisesValidation (check_timeout limit)
  check_timeout-RaisesValidation none = returns
  check_timeout-RaisesValidation (some x) = representable-RaisesValidation x "timeout"

  -- Once Python's arguments have been converted to the types that are declared, the constructor of the client,
  -- `read` and `wait_for_first_sample` return or raise `ValidationError` and nothing else; the constructor
  -- where the socket layer of the system could be started, which on Windows may fail.
  pub calls_raise_validation :
      (winsock : Option ℕ) (c : Config F) (clock : ℕ → ℕ) (size : ℕ) (limit : Option F)
      (timeout : F) (queue : SampleQueue (Sample F)) (started_at : ℕ) (rounds : List (ReadRound F))
      (waits : List WaitRound)
      → new_runtime winsock ≡ ok tt
      → RaisesValidation (new_native winsock c clock size)
        × RaisesValidation (read limit queue started_at rounds)
        × RaisesValidation (wait_for_first_sample timeout queue started_at waits)
  unfolding new_native construct read wait_for_first_sample
  calls_raise_validation winsock c clock size limit timeout queue started_at rounds waits e = (
    bind-RaisesValidation _ _ (new_queue-RaisesValidation size) (λ q.
        bind-RaisesValidation _ _
          (then-RaisesValidation _ _
            (subst (λ (m : Result (Unit {0})). RaisesValidation m) (sym e) returns)
            (then-RaisesValidation _ _ (validate_config-RaisesValidation c clock) returns))
          (λ s. returns)),
    then-RaisesValidation _ _ (check_timeout-RaisesValidation limit) returns,
    then-RaisesValidation _ _ (representable-RaisesValidation timeout "timeout") returns,
  )
