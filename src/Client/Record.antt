-- ===== src/Client/Record.antt =====
-- `handle_record` of core/src/detail/client_impl.cpp: the locked block, the sample, the callback with no lock held, and the delivery.
use py_net_ft.Common.{
  ℕ, ◌-◌, Bool, ◌&&◌, not, Option, none, some, List, [], ◌∷◌, ◌++◌, ◌==◌, if◌then◌else◌, length,
}
use py_net_ft.Common.Int.{ℤ}
use py_net_ft.Exception.{Exception, Result, ok, throws, logic_error}
use py_net_ft.Double.{Double}
use py_net_ft.Time.{ticks_per_second}
use py_net_ft.Protocol.{RawRecord}
use py_net_ft.Status.{classify_status}
use py_net_ft.Sequence.{rdt_observe, ft_observe}
use py_net_ft.Types.{SensorConfiguration, Axes, Sample}
use py_net_ft.Client.State.{Impl, SessionResult, sensor_configuration, prune_rate_window}
use py_net_ft.Client.Accounting.{
  outcome_of, count_rdt, count_ft, count_severity, passes, callback_failure_outcome, mark_seen,
  limit_rate, record_callback_error, deliver_sample,
}
use py_net_ft.Client.Command.{Call, interlude}

-- What the locked block leaves for the rest of `handle_record`.
pub record Accounted (F : Type 0) : Type 0 where
  pub client : Impl F
  pub configuration : SensorConfiguration F
  pub deliver : Bool
  pub outcome : Option SessionResult

-- How the callback ends: it returns, or it throws.
pub data CallbackResult : Type 0 where
  returns : CallbackResult
  raises : Exception → CallbackResult

module _ {F : Type 0} ⦃d : Double F⦄ where
  open d use {of_int, of_nat, mul, div, lt, is_finite}

  -- A limit is set, a sample has been delivered, and less than its period has passed since. The
  -- comparison is of `double` nanoseconds.
  unfoldable pub too_soon : F → ℕ → ℕ → Bool
  too_soon limit last received_at =
      lt (of_nat 0) limit
      && not (last == 0)
      && lt (of_nat (received_at - last)) (mul (div (of_nat 1) limit) (of_nat ticks_per_second))

  unfoldable pub account_for : Impl F → SensorConfiguration F → RawRecord → ℕ → Accounted F
  account_for s c r received_at =
      let (rdt_sequence, rdt) = rdt_observe s.rdt_sequence r.rdt_sequence in
      let (ft_sequence, ft) = ft_observe s.ft_sequence r.ft_sequence in
      let severity = classify_status r.status in
      let times = prune_rate_window (s.receive_times ++ (received_at ∷ [])) received_at in
      let seen = mark_seen r ft (length times) s.health in
      let counted = count_severity severity (count_ft ft (count_rdt rdt seen)) in
      let passing = passes s.config.deliver_samples_with_error_status rdt.kind severity ft in
      let limited =
        passing && too_soon s.config.sample_rate_limit_hz s.last_delivery_at received_at in
      record {
        client = record s {
          rdt_sequence = rdt_sequence;
          ft_sequence = ft_sequence;
          receive_times = times;
          last_record_at = received_at;
          health = limit_rate limited counted;
        };
        configuration = c;
        deliver = passing && not limited;
        outcome = outcome_of s.config.recovery_policy severity ft;
      }

  abbrev pub unconfigured : {A : Type 0} → Impl F → RawRecord → Impl F × Result A
  unconfigured s r = (
    record s {
      rdt_sequence = (rdt_observe s.rdt_sequence r.rdt_sequence).0;
      ft_sequence = (ft_observe s.ft_sequence r.ft_sequence).0;
    },
    throws (logic_error "sensor configuration is unavailable while streaming"),
  )

  abbrev pub account_with :
      Option (SensorConfiguration F) → Impl F → RawRecord → ℕ → Impl F × Result (Accounted F)
  account_with none s r received_at = unconfigured s r
  account_with (some c) s r received_at = let a = account_for s c r received_at in (a.client, ok a)

  -- The locked block. With no configuration known it throws, when both trackers have seen the record.
  unfoldable pub account : Impl F → RawRecord → ℕ → Impl F × Result (Accounted F)
  account s r received_at = account_with s.health.sensor_configuration s r received_at

  abbrev divided : Axes ℤ → F → Axes F
  divided raw counts = record {
    x = div (of_int raw.x) counts;
    y = div (of_int raw.y) counts;
    z = div (of_int raw.z) counts;
  }

  abbrev all_finite : Axes F → Bool
  all_finite a = is_finite a.x && is_finite a.y && is_finite a.z

  unfoldable pub make_sample : SensorConfiguration F → RawRecord → ℕ → Sample F
  make_sample c r received_at =
      let raw_force : Axes ℤ = record { x = r.fx; y = r.fy; z = r.fz } in
      let raw_torque : Axes ℤ = record { x = r.tx; y = r.ty; z = r.tz } in
      record {
        rdt_sequence = r.rdt_sequence;
        ft_sequence = r.ft_sequence;
        status = r.status;
        raw_force = raw_force;
        raw_torque = raw_torque;
        force = divided raw_force c.calibration.counts_per_force_unit;
        torque = divided raw_torque c.calibration.counts_per_torque_unit;
        force_unit = c.calibration.force_unit;
        torque_unit = c.calibration.torque_unit;
        configuration_revision = c.revision;
        received_at = received_at;
      }

  abbrev pub is_finite_sample : Sample F → Bool
  is_finite_sample sample = all_finite sample.force && all_finite sample.torque

  -- With no callback set, no call is made and none can fail.
  abbrev pub run_callback : Option ℕ → Impl F → List Call → CallbackResult → Impl F × CallbackResult
  run_callback none s calls result = (s, returns)
  run_callback (some _) s calls result = (interlude s calls, result)

  abbrev pub after_callback :
      Sample F → Option SessionResult → Impl F × CallbackResult → Impl F × Option SessionResult
  after_callback sample outcome (s, returns) = (deliver_sample s sample, outcome)
  after_callback sample outcome (s, raises e) =
      (record_callback_error s e, callback_failure_outcome s.config.recovery_policy outcome)

  -- The rest, after the locked block. `calls` are made while the callback runs.
  unfoldable pub hand_out :
      Accounted F → RawRecord → ℕ → List Call → CallbackResult → Impl F × Option SessionResult
  hand_out a r received_at calls result =
      let sample = make_sample a.configuration r received_at in
      if not a.deliver
      then (a.client, a.outcome)
      else if not (is_finite_sample sample)
      then (a.client, some sensor_configuration)
      else after_callback sample a.outcome (run_callback a.client.callback a.client calls result)

  abbrev pub returning : Impl F × Option SessionResult → Impl F × Result (Option SessionResult)
  returning (s, outcome) = (s, ok outcome)

  abbrev pub handing_out :
      RawRecord
      → ℕ
      → List Call
      → CallbackResult
      → Impl F × Result (Accounted F)
      → Impl F × Result (Option SessionResult)
  handing_out r received_at calls result (s, throws e) = (s, throws e)
  handing_out r received_at calls result (s, ok a) =
      returning (hand_out a r received_at calls result)

  unfoldable pub handle_record :
      Impl F → RawRecord → ℕ → List Call → CallbackResult → Impl F × Result (Option SessionResult)
  handle_record s r received_at calls result =
      handing_out r received_at calls result (account s r received_at)
