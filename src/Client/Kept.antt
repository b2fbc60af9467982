-- ===== src/Client/Kept.antt =====
-- What `handle_record` of core/src/detail/client_impl.cpp leaves alone in the snapshot until a sample is delivered.
use py_net_ft.Common.{ℕ, ◌≡◌, refl, ap, ◌∙◌, Bool, Option, List, arith}
use py_net_ft.Exception.{Result}
use py_net_ft.Double.{Double}
use py_net_ft.Protocol.{RawRecord}
use py_net_ft.Status.{StatusSeverity}
use py_net_ft.Sequence.{SequenceObservation, FtSequenceKind}
use py_net_ft.Types.{SensorConfiguration, HealthSnapshot}
use py_net_ft.Client.State.{Impl, SessionResult}
use py_net_ft.Client.Command.{Call}
use py_net_ft.Client.Frame.{Keeps}
use py_net_ft.Client.Accounting.{
  count_rdt, count_ft, count_severity, limit_rate, mark_seen, deliver_sample, record_callback_error,
}
use py_net_ft.Client.Cases.{handle_record_cases}
use py_net_ft.Client.Record.{CallbackResult, handle_record, account_for}

module _ {F : Type 0} where
  -- Two snapshots of the same configuration, with as many samples delivered.
  pub record Agree (h g : HealthSnapshot F) : Type 0 where
    pub configuration_eq : g.sensor_configuration ≡ h.sensor_configuration
    pub delivered_eq : g.delivered_count ≡ h.delivered_count

  Agree-trans : (h g f : HealthSnapshot F) → Agree h g → Agree g f → Agree h f
  Agree-trans h g f a b = record {
    configuration_eq = b.configuration_eq ∙ a.configuration_eq;
    delivered_eq = b.delivered_eq ∙ a.delivered_eq;
  }

  mark_seen-Agree :
      (r : RawRecord) (k : FtSequenceKind) (n : ℕ) (h : HealthSnapshot F)
      → Agree h (mark_seen r k n h)
  mark_seen-Agree r k n h = record { configuration_eq = refl; delivered_eq = refl }

  count_rdt-Agree : (o : SequenceObservation) (h : HealthSnapshot F) → Agree h (count_rdt o h)
  unfolding count_rdt
  count_rdt-Agree o h = ground arith

  count_ft-Agree : (k : FtSequenceKind) (h : HealthSnapshot F) → Agree h (count_ft k h)
  unfolding count_ft
  count_ft-Agree k h = ground arith

  count_severity-Agree : (v : StatusSeverity) (h : HealthSnapshot F) → Agree h (count_severity v h)
  unfolding count_severity
  count_severity-Agree v h = ground arith

  limit_rate-Agree : (limited : Bool) (h : HealthSnapshot F) → Agree h (limit_rate limited h)
  limit_rate-Agree limited h = ground arith

  pub Keeps-Agree : (s t : Impl F) → Keeps s t → Agree s.health t.health
  Keeps-Agree s t k = record {
    configuration_eq = ap (λ (h : HealthSnapshot F). h.sensor_configuration) k.health_eq;
    delivered_eq = ap (λ (h : HealthSnapshot F). h.delivered_count) k.health_eq;
  }

module _ {F : Type 0} ⦃d : Double F⦄ where
  pub account_for-Agree :
      (s : Impl F) (c : SensorConfiguration F) (r : RawRecord) (t : ℕ)
      → Agree s.health (account_for s c r t).client.health
  unfolding account_for
  account_for-Agree s c r t = Agree-trans _ _ _ (mark_seen-Agree r _ _ s.health) (
      Agree-trans _ _ _ (count_rdt-Agree _ _) (
        Agree-trans _ _ _ (count_ft-Agree _ _)
          (Agree-trans _ _ _ (count_severity-Agree _ _) (limit_rate-Agree _ _))))

  -- After a record the configuration and the callback are those of before.
  pub record Stands (s u : Impl F) : Type 0 where
    pub configuration_eq : u.health.sensor_configuration ≡ s.health.sensor_configuration
    pub callback_eq : u.callback ≡ s.callback

  pub Keeps-Stands : (s t : Impl F) → Keeps s t → Stands s t
  Keeps-Stands s t k = record {
    configuration_eq = (Keeps-Agree s t k).configuration_eq;
    callback_eq = k.callback_eq;
  }

  Stands-trans : (s t u : Impl F) → Stands s t → Stands t u → Stands s u
  Stands-trans s t u a b = record {
    configuration_eq = b.configuration_eq ∙ a.configuration_eq;
    callback_eq = b.callback_eq ∙ a.callback_eq;
  }

  pub handle_record-Stands :
      (s : Impl F) (r : RawRecord) (t : ℕ) (calls : List Call) (result : CallbackResult)
      → Stands s (handle_record s r t calls result).0
  handle_record-Stands s r t calls result =
      handle_record_cases Q s r t calls result
        (λ e. record { configuration_eq = refl; callback_eq = refl })
        (λ c e.
          let a = account_for s c r t in
          let accounted : Stands s a.client = record {
            configuration_eq = (account_for-Agree s c r t).configuration_eq;
            callback_eq = unfold account_for in refl;
          } in
          record {
            held_back = λ p. accounted;
            not_finite = λ p q. accounted;
            delivered = λ p q f u k.
                Stands-trans s u _ (Stands-trans s a.client u accounted (Keeps-Stands _ u k))
                  (unfold deliver_sample in record { configuration_eq = refl; callback_eq = refl });
            failed = λ p q x f u k.
                Stands-trans s u _ (Stands-trans s a.client u accounted (Keeps-Stands _ u k)) (
                  unfold record_callback_error in
                  record { configuration_eq = refl; callback_eq = refl });
          })
    where
      Q : Impl F × Result (Option SessionResult) → Type 0
      Q x = Stands s x.0
