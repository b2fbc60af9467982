-- ===== src/Client/Faults/Passes.antt =====
-- What a pass of the loop of `run` of core/src/detail/client_impl.cpp leaves of the faults.
use py_net_ft.Common.{
  ℕ, String, ◌≡◌, ◌≢◌, refl, ◌∙◌, Bool, true, false, not, ◌&&◌, ◌||◌, Option, List, ◌⊎◌, inl, inr,
  arith, if_both, if_cases,
}
use py_net_ft.Exception.{Exception, Result, ok, throws}
use py_net_ft.Double.{Double}
use py_net_ft.Types.{FaultCode, SensorConfiguration, Config, fail_stop}
use py_net_ft.Types
use py_net_ft.FaultLatch.{is_faulted, publish}
use py_net_ft.Transport.{SendResult}
use py_net_ft.Protocol.{RawRecord}
use py_net_ft.Client.State.{Impl, SessionResult, SessionOutcome, fault_for, apply_configuration}
use py_net_ft.Client.Command.{Call, interlude, close_session}
use py_net_ft.Client.Frame.{Keeps, interlude-Keeps, end_stream-Keeps}
use py_net_ft.Client.Accounting.{tolerates, deliver_sample, record_callback_error}
use py_net_ft.Client.Cases.{handle_record_cases}
use py_net_ft.Client.Record.{CallbackResult, handle_record, account_for}
use py_net_ft.Client.Session.{SessionEnd, finished, broke, running}
use py_net_ft.Client.Worker.{
  Pass, WorkerNext, next_session, leaves, breaks, waits, set_fault, recover, after_session, delayed,
  after_end, pass, is_stopped,
}
use py_net_ft.Client.Invariant.{AnyAnswer, IsSessionInvariant, receive_session-invariant}

-- What the worker leaves: no fault, or a fault that the snapshot shows.
abbrev pub IsShown : {F : Type 0} → Impl F → Type 0
IsShown s =
    (is_faulted s.fault_latch ≡ true)
    × (s.health.state ≡ Types.faulted)
    × (s.health.fault_code ≡ s.fault_latch)

fault_for-is_fault : (r : SessionResult) → is_stopped r ≡ false → fault_for r ≢ FaultCode.none
unfolding fault_for
fault_for-is_fault r e = ground arith

and_left : (a b : Bool) → not a && b ≡ true → a ≡ false
and_left a b e = ground arith

socket_fault : FaultCode.socket ≢ FaultCode.none
socket_fault e = ground arith

module _ {F : Type 0} where
  -- No fault is latched, and the configuration is `c`.
  pub record IsClear (c : Config F) (s : Impl F) : Type 0 where
    pub latch_eq : s.fault_latch ≡ FaultCode.none
    pub config_eq : s.config ≡ c

  pub Keeps-IsClear : {c : Config F} (s t : Impl F) → Keeps s t → IsClear c s → IsClear c t
  Keeps-IsClear s t k w = record {
    latch_eq = k.fault_latch_eq ∙ w.latch_eq;
    config_eq = k.config_eq ∙ w.config_eq;
  }

module _ {F : Type 0} ⦃d : Double F⦄ where
  handle_record-kept :
      (s : Impl F) (r : RawRecord) (t : ℕ) (calls : List Call) (result : CallbackResult)
      → ((handle_record s r t calls result).0.fault_latch ≡ s.fault_latch)
        × ((handle_record s r t calls result).0.config ≡ s.config)
  handle_record-kept s r t calls result =
      handle_record_cases Q s r t calls result (λ e. (refl, refl))
        (λ c e. record {
          held_back = λ p. unfold account_for in (refl, refl);
          not_finite = λ p q. unfold account_for in (refl, refl);
          delivered =
              λ p q f u k. unfold deliver_sample account_for in (k.fault_latch_eq, k.config_eq);
          failed = λ p q x f u k.
              unfold record_callback_error account_for in (k.fault_latch_eq, k.config_eq);
        })
    where
      Q : Impl F × Result (Option SessionResult) → Type 0
      Q x = (x.0.fault_latch ≡ s.fault_latch) × (x.0.config ≡ s.config)

  pub IsClear-session : (c : Config F) → IsSessionInvariant {F = F} AnyAnswer (λ _. IsClear c)
  IsClear-session c = record {
    weaken = λ n s w. w;
    by_calls = λ n s calls. Keeps-IsClear s _ (interlude-Keeps s calls);
    by_connecting = λ n s w. record { latch_eq = w.latch_eq; config_eq = w.config_eq };
    by_configuration = λ n s answer k _ _ w.
        unfold apply_configuration in record { latch_eq = w.latch_eq; config_eq = w.config_eq };
    by_transport = λ n s t w. record { latch_eq = w.latch_eq; config_eq = w.config_eq };
    by_start = λ n s t w. record { latch_eq = w.latch_eq; config_eq = w.config_eq };
    by_timeout = λ n s w. record { latch_eq = w.latch_eq; config_eq = w.config_eq };
    by_malformed = λ n s w. record { latch_eq = w.latch_eq; config_eq = w.config_eq };
    by_record = λ n s r t calls result w.
        let k = handle_record-kept (record s { consecutive_malformed = 0 }) r t calls result in
        record { latch_eq = k.0 ∙ w.latch_eq; config_eq = k.1 ∙ w.config_eq };
    by_valid = λ n s w. record { latch_eq = w.latch_eq; config_eq = w.config_eq };
  }

  -- What the loop of the worker leaves to its end: no fault, or one that is shown.
  abbrev pub Settled : Config F → Impl F → Type 0
  Settled c s = IsClear c s ⊎ IsShown s

  set_fault-IsShown :
      (c : Config F) (s : Impl F) (code : FaultCode) (message : String)
      → code ≢ FaultCode.none
      → IsClear c s
      → IsShown (set_fault s code message)
  unfolding set_fault publish
  set_fault-IsShown c s code message n w = ground (arith, w.latch_eq)

  pub close_session-Keeps : (s : Impl F) (a : SendResult) → Keeps s (close_session s a)
  unfolding close_session
  close_session-Keeps s a = ground (arith, end_stream-Keeps s a)

  pub recover-Settled :
      (c : Config F) (s : Impl F) (e : Exception) → IsClear c s → Settled c (recover s e)
  unfolding recover
  recover-Settled c s e w =
      if_both (Settled c) s.stopping (inl w)
        (inr (set_fault-IsShown c s FaultCode.socket _ socket_fault w))

  -- What a pass leaves, by where the worker then stands.
  pub data Left (c : Config F) : WorkerNext F → Type 0 where
    again : {s : Impl F} {b : F} → IsClear c s → Left c (next_session s b)
    left : {s : Impl F} → Settled c s → Left c (leaves s)
    broken : {s : Impl F} {e : Exception} → IsClear c s → Left c (breaks s e)
    waiting : {s : Impl F} → Left c (waits s)

  delayed-Left :
      (c : Config F) (s : Impl F) (b : F) (p : Pass F) (deadline : Result ℕ)
      → IsClear c s
      → Left c (delayed s b p deadline)
  delayed-Left c s b p (throws e) w = broken w
  delayed-Left c s b p (ok t) w = again (Keeps-IsClear s _ (interlude-Keeps s p.while_delayed) w)

  after_session-Left :
      (c : Config F) (s : Impl F) (o : SessionOutcome) (b : F) (p : Pass F)
      → IsClear c s
      → Left c (after_session s o b p)
  unfolding after_session
  after_session-Left c s o b p w =
      if_cases (Left c) (not (is_stopped o.result) && not (tolerates s.config.recovery_policy))
        (λ e.
          left (inr (set_fault-IsShown c s _ _ (fault_for-is_fault o.result (and_left _ _ e)) w)))
        (λ e.
          if_both (Left c) (is_stopped o.result || s.stopping) (left (inl w))
            (delayed-Left c _ _ p _ (record { latch_eq = w.latch_eq; config_eq = w.config_eq })))

  after_end-Left :
      (c : Config F) (p : Pass F) (b : F) (x : Impl F × SessionEnd)
      → IsClear c x.0
      → Left c (after_end p b x)
  after_end-Left c p b (s, finished o) w = after_session-Left c _ o b p (
      Keeps-IsClear _ _ (close_session-Keeps _ p.close_sent)
        (Keeps-IsClear s _ (interlude-Keeps s p.before_closing) w))
  after_end-Left c p b (s, broke e) w = broken w
  after_end-Left c p b (s, running) w = waiting

  pub pass-Left :
      (c : Config F) (s : Impl F) (b : F) (p : Pass F) → IsClear c s → Left c (pass s b p)
  unfolding pass
  pass-Left c s b p w =
      let q = Keeps-IsClear s _ (interlude-Keeps s p.before) w in
      if_both (Left c)
        ((interlude s p.before).stopping || is_faulted (interlude s p.before).fault_latch)
        (left (inl q))
        (after_end-Left c p b _
          (receive_session-invariant (IsClear-session c) p.start p.rounds 0 _ tt q))
