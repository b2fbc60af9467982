-- ===== src/Client/Calibrated/Run.antt =====
-- A whole run of the worker of core/src/detail/client_impl.cpp, where the sessions that ask the sensor get what
-- `discover_sensor` of core/src/discovery.cpp returns.
use py_net_ft.Common.{ℕ, ◌≡◌, refl, sym, ap, subst, ◌∙◌, Option, none, some, List, All}
use py_net_ft.Exception.{Result, ok, ok_inj}
use py_net_ft.Double.{Double}
use py_net_ft.Types.{Calibration, SensorConfiguration, Config}
use py_net_ft.Types.Validate.{validate_config}
use py_net_ft.Types.Validate.Usable.{IsSafe, IsSafeOverride, validate_config-IsUsable}
use py_net_ft.XmlConfig.Characters.{Text}
use py_net_ft.XmlConfig.Parser.{FloatingEnvironment}
use py_net_ft.Discovery.{Curl, Request, discover_sensor}
use py_net_ft.Discovery.Bounds.{IsWrite}
use py_net_ft.Discovery.Options.{session_options}
use py_net_ft.Discovery.Sound.{discover_sensor-IsFromSensor}
use py_net_ft.Transport.{SendResult}
use py_net_ft.Client.State.{Impl}
use py_net_ft.Client.Frame.{interlude-Keeps}
use py_net_ft.Client.Session.{configuration_for_session}
use py_net_ft.Client.Worker.{Pass, run}
use py_net_ft.Client.Invariant.{IsSessionInvariant}
use py_net_ft.Client.Invariant.Run.{Answered, IsRunInvariant, run-invariant}
use py_net_ft.Client.Calibrated.{
  IsCalibrated, moved, Keeps-IsCalibrated, handle_record-IsCalibrated,
  apply_configuration-IsCalibrated, close_session-IsCalibrated, set_fault-IsCalibrated,
  finish_session-IsCalibrated,
}

module _ {F : Type 0} ⦃d : Double F⦄ where
  module _ (read : Text → Option F) (c : Config F) where
    -- The answer is one that `discover_sensor` gives for the options of a session.
    pub record IsDiscovered (answer : Result (SensorConfiguration F)) : Type 0 where
      pub environment : FloatingEnvironment
      pub later_environment : FloatingEnvironment
      pub curl : Curl
      pub bytes_written : (r : Request) → All IsWrite (curl.transfer r).writes
      pub discovered :
          discover_sensor read environment later_environment curl (session_options c) ≡ some answer

    configuration_for_session-IsSafe :
        (answer : Result (SensorConfiguration F)) (k : SensorConfiguration F)
        → IsSafeOverride c.calibration_override
        → IsDiscovered answer
        → configuration_for_session c answer ≡ ok k
        → IsSafe k.calibration
    unfolding configuration_for_session
    configuration_for_session-IsSafe answer k safe found e = go c.calibration_override safe e
      where
        go :
            (o : Option (Calibration F))
            → IsSafeOverride o
            → configuration_for_session (record c { calibration_override = o }) answer ≡ ok k
            → IsSafe k.calibration
        go none v p =
            (discover_sensor-IsFromSensor read found.environment found.later_environment found.curl
              (session_options c) k found.bytes_written
              (found.discovered ∙ ap some p)).2.calibration_safe
        go (some calibration) v p =
            subst (λ (x : SensorConfiguration F). IsSafe x.calibration) (ok_inj _ k p) v

    IsCalibrated-session :
        IsSafeOverride c.calibration_override
        → IsSessionInvariant IsDiscovered (λ _. IsCalibrated c)
    IsCalibrated-session safe = record {
      weaken = λ n s w. w;
      by_calls = λ n s calls. Keeps-IsCalibrated s _ (interlude-Keeps s calls);
      by_connecting = λ n s. moved c s _ refl refl refl;
      by_configuration = λ n s answer k found e w.
          apply_configuration-IsCalibrated c s k
            (configuration_for_session-IsSafe answer k safe found
              (ap (λ (x : Config F). configuration_for_session x answer) (sym w.config_eq) ∙ e))
            w;
      by_transport = λ n s t. moved c s _ refl refl refl;
      by_start = λ n s t. moved c s _ refl refl refl;
      by_timeout = λ n s. moved c s _ refl refl refl;
      by_malformed = λ n s. moved c s _ refl refl refl;
      by_record = λ n s r t calls result w.
          handle_record-IsCalibrated c _ r t calls result (moved c s _ refl refl refl w);
      by_valid = λ n s. moved c s _ refl refl refl;
    }

    IsCalibrated-run :
        IsSafeOverride c.calibration_override → IsRunInvariant IsDiscovered (λ _. IsCalibrated c)
    IsCalibrated-run safe = record {
      session = IsCalibrated-session safe;
      by_close = λ n. close_session-IsCalibrated c;
      by_backoff = λ n s message. moved c s _ refl refl refl;
      by_fault = λ n. set_fault-IsCalibrated c;
      by_finish = λ n. finish_session-IsCalibrated c;
    }

    -- Let the client's configuration be one that `validate` accepts, and let every session that asks the
    -- sensor get what `discover_sensor` gives, whatever the sensor and libcurl answer. If the client shows
    -- no unsafe calibration and no bad sample, then after any run of its worker it does not either: the
    -- calibration in the snapshot has known units and divisors that are not below the least safe one, and
    -- the latest sample, where there is one, has six finite values in known units.
    pub run-IsCalibrated :
        (s : Impl F) (clock : ℕ → ℕ) (passes : List (Pass F)) (a : SendResult)
        → validate_config c clock ≡ ok tt
        → Answered IsDiscovered passes
        → IsCalibrated c s
        → IsCalibrated c (run s passes a).0
    run-IsCalibrated s clock passes a e answered w =
        run-invariant (IsCalibrated-run (validate_config-IsUsable c clock e).calibration_safe) s
          passes a answered w
