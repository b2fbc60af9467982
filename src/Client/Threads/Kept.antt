-- ===== src/Client/Threads/Kept.antt =====
-- The members of a client that say how its threads stand, and the steps that leave them alone.
use py_net_ft.Common.{ℕ, String, ◌≡◌, refl, not, Option, none, some, [], if_both, arith}
use py_net_ft.Exception.{Exception}
use py_net_ft.Double.{Double}
use py_net_ft.Protocol.{RawRecord}
use py_net_ft.Types.{FaultCode, SensorConfiguration, Sample}
use py_net_ft.Transport.{SendResult}
use py_net_ft.Client.State.{Impl, SessionResult, apply_configuration}
use py_net_ft.Client.Command.{bias, health, end_stream, close_session, interlude}
use py_net_ft.Client.Record.{
  CallbackResult, handle_record, account, account_for, account_with, Accounted, hand_out,
  after_callback, run_callback, handing_out, make_sample, is_finite_sample,
}
use py_net_ft.Client.Record
use py_net_ft.Client.Accounting.{deliver_sample, record_callback_error}
use py_net_ft.Client.Worker.{set_fault}
use py_net_ft.Client.Threads.{
  Work, work, show_stopped, configures, transports, resets, handles, counts_malformed, times_out,
  closes, faults, backs_off,
}

-- The two clients stand alike.
pub record StandsAs {F : Type 0} (s t : Impl F) : Type 0 where
  pub worker_eq : t.worker ≡ s.worker
  pub active_eq : t.active_worker_id ≡ s.active_worker_id
  pub joining_eq : t.joining ≡ s.joining
  pub exited_eq : t.worker_exited ≡ s.worker_exited

module _ {F : Type 0} where
  pub stands_as : (s : Impl F) → StandsAs s s
  stands_as s = record { worker_eq = refl; active_eq = refl; joining_eq = refl; exited_eq = refl }

  StandsAs-trans : (s t u : Impl F) → StandsAs s t → StandsAs t u → StandsAs s u
  StandsAs-trans s t u p q = ground arith

  pub bias-StandsAs : (s : Impl F) (a b : SendResult) → StandsAs s (bias s a b).0
  unfolding bias
  bias-StandsAs s a b = ground arith

  pub health-StandsAs : (s : Impl F) (now : ℕ) → StandsAs s (health s now).0
  unfolding health
  health-StandsAs s now = ground arith

  pub end_stream-StandsAs : (s : Impl F) (a : SendResult) → StandsAs s (end_stream s a)
  unfolding end_stream
  end_stream-StandsAs s a = ground arith

  pub close_session-StandsAs : (s : Impl F) (a : SendResult) → StandsAs s (close_session s a)
  unfolding close_session
  close_session-StandsAs s a = ground (arith, end_stream-StandsAs s a)

  set_fault-StandsAs : (s : Impl F) (c : FaultCode) (m : String) → StandsAs s (set_fault s c m)
  unfolding set_fault
  set_fault-StandsAs s c m = ground arith

  pub show_stopped-StandsAs : (s : Impl F) → StandsAs s (show_stopped s)
  unfolding show_stopped
  show_stopped-StandsAs s = ground arith

module _ {F : Type 0} ⦃d : Double F⦄ where
  configure-StandsAs :
      (s : Impl F) (c : SensorConfiguration F) → StandsAs s (apply_configuration s c)
  unfolding apply_configuration
  configure-StandsAs s c = ground arith

  account_for-StandsAs :
      (s : Impl F) (c : SensorConfiguration F) (r : RawRecord) (at : ℕ)
      → StandsAs s (account_for s c r at).client
  unfolding account_for
  account_for-StandsAs s c r at = ground arith

  failed-StandsAs : (s : Impl F) (e : Exception) → StandsAs s (record_callback_error s e)
  unfolding record_callback_error
  failed-StandsAs s e = ground arith

  deliver_sample-StandsAs : (s : Impl F) (sample : Sample F) → StandsAs s (deliver_sample s sample)
  unfolding deliver_sample
  deliver_sample-StandsAs s sample = ground arith

  called-StandsAs :
      (s : Impl F) (sample : Sample F) (o : Option SessionResult) (callback : Option ℕ)
      (result : CallbackResult)
      → StandsAs s (after_callback sample o (run_callback callback s [] result)).0
  unfolding interlude
  called-StandsAs s sample o none result = deliver_sample-StandsAs s sample
  called-StandsAs s sample o (some _) Record.returns = deliver_sample-StandsAs s sample
  called-StandsAs s sample o (some _) (Record.raises e) = failed-StandsAs s e

  hand_out-StandsAs :
      (a : Accounted F) (r : RawRecord) (at : ℕ) (result : CallbackResult)
      → StandsAs a.client (hand_out a r at [] result).0
  unfolding hand_out
  hand_out-StandsAs a r at result =
      let sample = make_sample a.configuration r at in
      let P : Impl F × Option SessionResult → Type 0 = λ p. StandsAs a.client p.0 in
      if_both P (not a.deliver) (stands_as a.client) (
        if_both P (not (is_finite_sample sample)) (stands_as a.client)
          (called-StandsAs a.client sample a.outcome a.client.callback result))

  accounted-StandsAs :
      (o : Option (SensorConfiguration F)) (s : Impl F) (r : RawRecord) (at : ℕ)
      (result : CallbackResult)
      → StandsAs s (handing_out r at [] result (account_with o s r at)).0
  accounted-StandsAs none s r at result = ground arith
  accounted-StandsAs (some c) s r at result =
      let a = account_for s c r at in
      StandsAs-trans s a.client (hand_out a r at [] result).0 (account_for-StandsAs s c r at)
        (hand_out-StandsAs a r at result)

  handle_record-StandsAs :
      (s : Impl F) (r : RawRecord) (at : ℕ) (result : CallbackResult)
      → StandsAs s (handle_record s r at [] result).0
  unfolding handle_record account
  handle_record-StandsAs s r at result =
      accounted-StandsAs s.health.sensor_configuration s r at result

  pub work-StandsAs : (s : Impl F) (m : Work F) → StandsAs s (work s m)
  unfolding work
  work-StandsAs s (configures c) = configure-StandsAs s c
  work-StandsAs s (handles r at result) = handle_record-StandsAs s r at result
  work-StandsAs s (closes sent) = close_session-StandsAs s sent
  work-StandsAs s (faults code message) = set_fault-StandsAs s code message
  work-StandsAs s (transports t begun) = ground arith
  work-StandsAs s resets = ground arith
  work-StandsAs s counts_malformed = ground arith
  work-StandsAs s times_out = ground arith
  work-StandsAs s (backs_off message) = ground arith
