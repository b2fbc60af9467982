-- ===== src/Client/Calibrated.antt =====
-- What the samples of a run of core/src/detail/client_impl.cpp are converted by: the override that `validate`
-- of core/src/types.cpp has accepted, or what `discover_sensor` of core/src/discovery.cpp has returned.
pub mod Run
use py_net_ft.Common.{
  ℕ, String, ◌≡◌, refl, sym, ap, subst, ◌∙◌, Bool, true, false, Option, none, some, List, All,
  arith, if_both,
}
use py_net_ft.Exception.{Result, ok, ok_inj}
use py_net_ft.Double.{Double}
use py_net_ft.Protocol.{RawRecord}
use py_net_ft.Status.{StatusSeverity}
use py_net_ft.Sequence.{SequenceObservation, FtSequenceKind}
use py_net_ft.Types.{FaultCode, Calibration, SensorConfiguration, Config, Sample, HealthSnapshot}
use py_net_ft.Types.Validate.{known_force, known_torque, validate_config}
use py_net_ft.Types.Validate.Usable.{IsSafe, IsSafeOverride, IsUsable, validate_config-IsUsable}
use py_net_ft.XmlConfig.Characters.{Text}
use py_net_ft.XmlConfig.Parser.{FloatingEnvironment}
use py_net_ft.XmlConfig.Sound.{IsFromSensor}
use py_net_ft.Discovery.{Curl, discover_sensor}
use py_net_ft.Discovery.Bounds.{IsWrite}
use py_net_ft.Discovery.Options.{session_options}
use py_net_ft.Discovery.Sound.{discover_sensor-IsFromSensor}
use py_net_ft.FaultLatch.{publish}
use py_net_ft.Transport.{SendResult}
use py_net_ft.Client.State.{
  Impl, SessionResult, apply_configuration, configure_health, same_calibration,
}
use py_net_ft.Client.Command.{Call, close_session, end_stream}
use py_net_ft.Client.Frame.{Keeps, interlude-Keeps, end_stream-Keeps}
use py_net_ft.Client.Accounting.{
  count_rdt, count_ft, count_severity, limit_rate, mark_seen, deliver_sample, record_callback_error,
}
use py_net_ft.Client.Kept.{account_for-Agree}
use py_net_ft.Client.Cases.{handle_record_cases}
use py_net_ft.Client.Record.{
  CallbackResult, handle_record, account_for, make_sample, is_finite_sample,
}
use py_net_ft.Client.Session.{configuration_for_session}
use py_net_ft.Client.Worker.{Pass, set_fault, finish_session, run}
use py_net_ft.Client.Invariant.{IsSessionInvariant}
use py_net_ft.Client.Invariant.Run.{Answered, IsRunInvariant, run_budget, run-invariant}

module _ {F : Type 0} ⦃d : Double F⦄ where
  abbrev pub IsSafeConfiguration : Option (SensorConfiguration F) → Type 0
  IsSafeConfiguration none = Unit
  IsSafeConfiguration (some c) = IsSafe c.calibration

  -- A sample of six finite values in known units.
  pub record IsGoodSample (x : Sample F) : Type 0 where
    pub finite : is_finite_sample x ≡ true
    pub force_known : known_force x.force_unit ≡ true
    pub torque_known : known_torque x.torque_unit ≡ true

  abbrev pub IsGoodLatest : Option (Sample F) → Type 0
  IsGoodLatest none = Unit
  IsGoodLatest (some x) = IsGoodSample x

  -- The client shows no unsafe calibration and no bad sample.
  pub record IsCalibrated (c : Config F) (s : Impl F) : Type 0 where
    pub config_eq : s.config ≡ c
    pub configuration_safe : IsSafeConfiguration s.health.sensor_configuration
    pub latest_good : IsGoodLatest s.latest

  -- A client that differs in other members alone.
  pub moved :
      (c : Config F) (s t : Impl F)
      → t.config ≡ s.config
      → t.health.sensor_configuration ≡ s.health.sensor_configuration
      → t.latest ≡ s.latest
      → IsCalibrated c s
      → IsCalibrated c t
  moved c s t p q r w = record {
    config_eq = p ∙ w.config_eq;
    configuration_safe = subst IsSafeConfiguration (sym q) w.configuration_safe;
    latest_good = subst IsGoodLatest (sym r) w.latest_good;
  }

  pub Keeps-IsCalibrated :
      {c : Config F} (s t : Impl F) → Keeps s t → IsCalibrated c s → IsCalibrated c t
  Keeps-IsCalibrated {c} s t k w =
      moved c s t k.config_eq (ap (λ (h : HealthSnapshot F). h.sensor_configuration) k.health_eq)
        k.latest_eq w

  make_sample-IsGoodSample :
      (k : SensorConfiguration F) (r : RawRecord) (t : ℕ)
      → IsSafe k.calibration
      → is_finite_sample (make_sample k r t) ≡ true
      → IsGoodSample (make_sample k r t)
  make_sample-IsGoodSample k r t (_, _, f, q) e = record {
    finite = e;
    force_known = unfold make_sample in f;
    torque_known = unfold make_sample in q;
  }

  pub handle_record-IsCalibrated :
      (c : Config F) (s : Impl F) (r : RawRecord) (t : ℕ) (calls : List Call)
      (result : CallbackResult)
      → IsCalibrated c s
      → IsCalibrated c (handle_record s r t calls result).0
  handle_record-IsCalibrated c s r t calls result w =
      handle_record_cases Q s r t calls result (λ e. moved c s _ refl refl refl w)
        (λ k e.
          let a = account_for s k r t in
          let wa : IsCalibrated c a.client =
            moved c s a.client (unfold account_for in refl)
              (account_for-Agree s k r t).configuration_eq (unfold account_for in refl) w in
          let safe : IsSafe k.calibration = subst IsSafeConfiguration e w.configuration_safe in
          record {
            held_back = λ p. wa;
            not_finite = λ p q. wa;
            delivered = λ p q f u ku.
                let wu = Keeps-IsCalibrated a.client u ku wa in
                unfold deliver_sample in
                record {
                  config_eq = wu.config_eq;
                  configuration_safe = wu.configuration_safe;
                  latest_good = make_sample-IsGoodSample k r t safe q;
                };
            failed = λ p q x f u ku.
                moved c u _ (unfold record_callback_error in refl)
                  (unfold record_callback_error in refl) (unfold record_callback_error in refl)
                  (Keeps-IsCalibrated a.client u ku wa);
          })
    where
      Q : Impl F × Result (Option SessionResult) → Type 0
      Q x = IsCalibrated c x.0

  pub apply_configuration-IsCalibrated :
      (c : Config F) (s : Impl F) (k : SensorConfiguration F)
      → IsSafe k.calibration
      → IsCalibrated c s
      → IsCalibrated c (apply_configuration s k)
  unfolding apply_configuration configure_health
  apply_configuration-IsCalibrated c s k safe w = go s.health.sensor_configuration
    where
      go :
          (o : Option (SensorConfiguration F))
          → IsCalibrated c (record s { health = configure_health o k s.health })
      go none = record {
        config_eq = w.config_eq;
        configuration_safe = safe;
        latest_good = w.latest_good;
      }
      go (some previous) =
          if_both (λ (h : HealthSnapshot F). IsCalibrated c (record s { health = h }))
            (same_calibration previous.calibration k.calibration)
            (record {
              config_eq = w.config_eq;
              configuration_safe = safe;
              latest_good = w.latest_good;
            })
            (record {
              config_eq = w.config_eq;
              configuration_safe = safe;
              latest_good = w.latest_good;
            })

  pub close_session-IsCalibrated :
      (c : Config F) (s : Impl F) (a : SendResult)
      → IsCalibrated c s
      → IsCalibrated c (close_session s a)
  unfolding close_session
  close_session-IsCalibrated c s a w =
      let w' = Keeps-IsCalibrated s (end_stream s a) (end_stream-Keeps s a).0 w in
      moved c (end_stream s a) _ refl refl refl w'

  pub set_fault-IsCalibrated :
      (c : Config F) (s : Impl F) (code : FaultCode) (message : String)
      → IsCalibrated c s
      → IsCalibrated c (set_fault s code message)
  set_fault-IsCalibrated c s code message w =
      moved c s _ (unfold set_fault in refl) (unfold set_fault publish in ground arith)
        (unfold set_fault in refl) w

  pub finish_session-IsCalibrated :
      (c : Config F) (s : Impl F) (a : SendResult)
      → IsCalibrated c s
      → IsCalibrated c (finish_session s a)
  finish_session-IsCalibrated c s a w =
      moved c (close_session s a) _ (unfold finish_session in ground arith)
        (unfold finish_session in ground arith) (unfold finish_session in ground arith)
        (close_session-IsCalibrated c s a w)
