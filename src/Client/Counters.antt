-- ===== src/Client/Counters.antt =====
-- The counters of the health snapshot agree with one another, whatever a session brings. The groups of
-- events that one record can belong to at most once are bounded by the records received.
pub mod Run
use py_net_ft.Common.{
  ℕ, suc, ◌+◌, ◌^◌, ◌≤◌, ◌<◌, ◌≡◌, refl, ap, sym, ◌∙◌, subst, Bool, true, false, not, ◌&&◌, Option,
  none, some, List, [], ◌∷◌, arith, Bool-cases, Option-cases, inl, inr, if◌then◌else◌,
}
use py_net_ft.Exception.{Exception, Result, ok, throws}
use py_net_ft.Double.{Double}
use py_net_ft.Protocol.{RawRecord}
use py_net_ft.Status.{StatusSeverity, classify_status, fine, warn, error}
use py_net_ft.Sequence.{
  SequenceKind, SequenceObservation, FtSequenceKind, rdt_observe, ft_observe, contiguous, gapped,
  duplicate, out_of_order, forward, stall, backward, restart,
}
use py_net_ft.Types.{SensorConfiguration, Sample, HealthSnapshot, streaming}
use py_net_ft.Client.State.{Impl, SessionResult, sensor_configuration}
use py_net_ft.Client.Command.{Call, interlude}
use py_net_ft.Client.Frame.{Keeps, interlude-Keeps}
use py_net_ft.Client.Accounting.{
  count_rdt, count_ft, count_severity, limit_rate, mark_seen, deliver_sample, record_callback_error,
}
use py_net_ft.Client.Record.{
  Accounted, CallbackResult, returns, raises, account_for, account, account_with, hand_out,
  handing_out, handle_record, make_sample, after_callback, run_callback, is_finite_sample,
}

-- Room for so many more events of each group: samples delivered, refused by the callback or held back by the
-- rate limit; records graded by their status; duplicates and records out of order; F/T events.
pub record Room {F : Type 0} (handed graded ordered stepped : ℕ) (h : HealthSnapshot F)
    : Type 0 where
  pub handed_le :
      h.delivered_count + h.callback_error_count + h.rate_limited_count + handed ≤ h.received_count
  pub graded_le : h.warning_count + h.device_error_count + graded ≤ h.received_count
  pub ordered_le : h.duplicate_count + h.out_of_order_count + ordered ≤ h.received_count
  pub stepped_le :
      h.ft_stall_count + h.ft_backward_count + h.ft_restart_count + stepped ≤ h.received_count
  pub received_lt : h.received_count < 2 ^ 64

abbrev room_left : Bool → ℕ
room_left true = 0
room_left false = 1

module _ {F : Type 0} where
  -- The counters agree.
  abbrev pub IsCounted : HealthSnapshot F → Type 0
  IsCounted h = Room 0 0 0 0 h

  count_rdt-Room :
      (a b d : ℕ) (o : SequenceObservation) (h : HealthSnapshot F)
      → Room a b 1 d h
      → Room a b 0 d (count_rdt o h) × ((count_rdt o h).received_count ≡ h.received_count)
  unfolding count_rdt
  count_rdt-Room a b d o h r = ground arith

  count_ft-Room :
      (a b c : ℕ) (k : FtSequenceKind) (h : HealthSnapshot F)
      → Room a b c 1 h
      → Room a b c 0 (count_ft k h) × ((count_ft k h).received_count ≡ h.received_count)
  unfolding count_ft
  count_ft-Room a b c k h r = ground arith

  count_severity-Room :
      (a c d : ℕ) (k : StatusSeverity) (h : HealthSnapshot F)
      → Room a 1 c d h
      → Room a 0 c d (count_severity k h) × ((count_severity k h).received_count ≡ h.received_count)
  unfolding count_severity
  count_severity-Room a c d k h r = ground arith

  -- The snapshot is counted, and no record more has been received.
  abbrev Stays : ℕ → Impl F → Type 0
  Stays n s = IsCounted s.health × (s.health.received_count ≡ n)

  deliver_sample-IsCounted :
      (s : Impl F) (sample : Sample F)
      → Room 1 0 0 0 s.health
      → IsCounted (deliver_sample s sample).health
  unfolding deliver_sample
  deliver_sample-IsCounted s sample r = ground arith

  -- A snapshot that differs in its state alone.
  Keeps-Room : (n : ℕ) (s t : Impl F) → Keeps s t → Room n 0 0 0 s.health → Room n 0 0 0 t.health
  Keeps-Room n s t k r = rw k.health_eq (record {
    handed_le = r.handed_le;
    graded_le = r.graded_le;
    ordered_le = r.ordered_le;
    stepped_le = r.stepped_le;
    received_lt = r.received_lt;
  })

  Room-weaken : (h : HealthSnapshot F) → Room 1 0 0 0 h → IsCounted h
  Room-weaken h r = omega arith

  record_callback_error-IsCounted :
      (s : Impl F) (e : Exception)
      → Room 1 0 0 0 s.health
      → IsCounted (record_callback_error s e).health
  unfolding record_callback_error
  record_callback_error-IsCounted s e r = ground arith

  limit_rate-Room :
      (limited : Bool) (h : HealthSnapshot F)
      → Room 1 0 0 0 h
      → Room (room_left limited) 0 0 0 (limit_rate limited h)
        × ((limit_rate limited h).received_count ≡ h.received_count)
  limit_rate-Room limited h r = ground arith

  mark_seen-Room :
      (r : RawRecord) (k : FtSequenceKind) (n : ℕ) (h : HealthSnapshot F)
      → IsCounted h
      → h.received_count + 1 < 2 ^ 64
      → Room 1 1 1 1 (mark_seen r k n h)
        × ((mark_seen r k n h).received_count ≡ h.received_count + 1)
  mark_seen-Room r k n h v l = omega arith

  counted-Room :
      (r : RawRecord) (o : SequenceObservation) (k : FtSequenceKind) (v : StatusSeverity) (n : ℕ)
      (limited : Bool) (h : HealthSnapshot F)
      → IsCounted h
      → h.received_count + 1 < 2 ^ 64
      → let h' =
          limit_rate limited (count_severity v (count_ft k (count_rdt o (mark_seen r k n h)))) in
        Room (room_left limited) 0 0 0 h' × (h'.received_count ≡ h.received_count + 1)
  counted-Room r o k v n limited h c l =
      let (r0, e0) = mark_seen-Room r k n h c l in
      let (r1, e1) = count_rdt-Room 1 1 1 o _ r0 in
      let (r2, e2) = count_ft-Room 1 1 0 k _ r1 in
      let (r3, e3) = count_severity-Room 1 0 0 v _ r2 in
      let (r4, e4) = limit_rate-Room limited _ r3 in (r4, e4 ∙ e3 ∙ e2 ∙ e1 ∙ e0)

module _ {F : Type 0} ⦃d : Double F⦄ where
  account_for-Room :
      (s : Impl F) (c : SensorConfiguration F) (r : RawRecord) (t : ℕ)
      → IsCounted s.health
      → s.health.received_count + 1 < 2 ^ 64
      → let a = account_for s c r t in
        Room (if a.deliver then 1 else 0) 0 0 0 a.client.health
        × (a.client.health.received_count ≡ s.health.received_count + 1)
  unfolding account_for
  account_for-Room s c r t v h =
      let (left, count) = counted-Room r _ _ _ _ _ s.health v h in (go _ _ _ left, count)
    where
      go :
          (passing soon : Bool) (g : HealthSnapshot F)
          → Room (room_left (passing && soon)) 0 0 0 g
          → Room (if passing && not (passing && soon) then 1 else 0) 0 0 0 g
      go true true g p = p
      go true false g p = p
      go false soon g p = Room-weaken g p

  after_callback-Stays :
      (s : Impl F) (sample : Sample F) (outcome : Option SessionResult) (o : Option ℕ)
      (calls : List Call) (result : CallbackResult)
      → Room 1 0 0 0 s.health
      → Stays s.health.received_count
          (after_callback sample outcome (run_callback o s calls result)).0
  unfolding deliver_sample record_callback_error
  after_callback-Stays s sample outcome none calls result r =
      (deliver_sample-IsCounted s sample r, refl)
  after_callback-Stays s sample outcome (some _) calls returns r =
      let k = interlude-Keeps s calls in
      (
        deliver_sample-IsCounted (interlude s calls) sample (Keeps-Room 1 s _ k r),
        ap (λ (h : HealthSnapshot F). h.received_count) k.health_eq,
      )
  after_callback-Stays s sample outcome (some _) calls (raises e) r =
      let k = interlude-Keeps s calls in
      (
        record_callback_error-IsCounted (interlude s calls) e (Keeps-Room 1 s _ k r),
        ap (λ (h : HealthSnapshot F). h.received_count) k.health_eq,
      )

  hand_out-Stays :
      (a : Accounted F) (r : RawRecord) (t : ℕ) (calls : List Call) (result : CallbackResult)
      → Room (if a.deliver then 1 else 0) 0 0 0 a.client.health
      → Stays a.client.health.received_count (hand_out a r t calls result).0
  unfolding hand_out
  hand_out-Stays a r t calls result room = go a.deliver _ room
    where
      go :
          (deliver finite : Bool)
          → Room (if deliver then 1 else 0) 0 0 0 a.client.health
          → Stays a.client.health.received_count
              (if not deliver
                then (a.client, a.outcome)
                else if not finite
                then (a.client, some sensor_configuration)
                else after_callback
                    (make_sample a.configuration r t)
                    a.outcome
                    (run_callback a.client.callback a.client calls result)).0
      go false finite p = (p, refl)
      go true false p = (Room-weaken _ p, refl)
      go true true p = after_callback-Stays a.client _ a.outcome a.client.callback calls result p

  -- If the counters agree and the count of the records does not wrap, they agree after a record is
  -- handled, whether it is delivered or not, whatever the callback does and whichever calls are made
  -- while it runs; and one record more is received, at most.
  pub handle_record-IsCounted :
      (s : Impl F) (r : RawRecord) (t : ℕ) (calls : List Call) (result : CallbackResult)
      → IsCounted s.health
      → s.health.received_count + 1 < 2 ^ 64
      → IsCounted (handle_record s r t calls result).0.health
        × ((handle_record s r t calls result).0.health.received_count ≤ s.health.received_count + 1)
  unfolding handle_record account
  handle_record-IsCounted s r t calls result v h = go s.health.sensor_configuration
    where
      go :
          (o : Option (SensorConfiguration F))
          → IsCounted (handing_out r t calls result (account_with o s r t)).0.health
            × ((handing_out r t calls result (account_with o s r t)).0.health.received_count
                ≤ s.health.received_count + 1)
      go none = (v, omega arith)
      go (some c) =
          let (room, count) = account_for-Room s c r t v h in
          let (counted, same) = hand_out-Stays (account_for s c r t) r t calls result room in
          (counted, omega arith)
