-- ===== src/Client/Cases.antt =====
-- The branches of `handle_record` of core/src/detail/client_impl.cpp, as one rule for what holds of its result.
use py_net_ft.Common.{
  ℕ, ◌≡◌, refl, ap, ◌∙◌, Bool, true, false, not, Option, none, some, List, if◌then◌else◌,
}
use py_net_ft.Exception.{Exception, Result, ok}
use py_net_ft.Double.{Double}
use py_net_ft.Protocol.{RawRecord}
use py_net_ft.Types.{SensorConfiguration, Sample}
use py_net_ft.Client.State.{Impl, SessionResult, sensor_configuration}
use py_net_ft.Client.Command.{Call, interlude}
use py_net_ft.Client.Frame.{Keeps, Keeps-refl, interlude-Keeps}
use py_net_ft.Client.Accounting.{deliver_sample, record_callback_error, callback_failure_outcome}
use py_net_ft.Client.Record.{
  Accounted, CallbackResult, returns, raises, account, account_with, account_for, hand_out,
  handing_out, handle_record, make_sample, is_finite_sample, after_callback, run_callback,
  returning, unconfigured,
}

-- How the callback ends, where one is set.
abbrev pub callback_end : Option ℕ → CallbackResult → CallbackResult
callback_end none result = returns
callback_end (some _) result = result

module _ {F : Type 0} ⦃d : Double F⦄ where
  -- What is to be shown of the branches where the record has been accounted for.
  pub record Handed (Q : Impl F × Result (Option SessionResult) → Type 0) (a : Accounted F)
      (sample : Sample F) (result : CallbackResult) : Type 0 where
    pub held_back : a.deliver ≡ false → Q (a.client, ok a.outcome)
    pub not_finite :
        a.deliver ≡ true
        → is_finite_sample sample ≡ false
        → Q (a.client, ok (some sensor_configuration))
    pub delivered :
        a.deliver ≡ true
        → is_finite_sample sample ≡ true
        → callback_end a.client.callback result ≡ returns
        → (s : Impl F) → Keeps a.client s
        → Q (deliver_sample s sample, ok a.outcome)
    pub failed :
        a.deliver ≡ true
        → is_finite_sample sample ≡ true
        → (e : Exception) → callback_end a.client.callback result ≡ raises e
        → (s : Impl F) → Keeps a.client s
        → Q (
          record_callback_error s e,
          ok (callback_failure_outcome s.config.recovery_policy a.outcome),
        )

  hand_out_cases :
      (Q : Impl F × Result (Option SessionResult) → Type 0) (a : Accounted F) (r : RawRecord)
      (t : ℕ) (calls : List Call) (result : CallbackResult)
      → Handed Q a (make_sample a.configuration r t) result
      → Q (handing_out r t calls result (a.client, ok a))
  unfolding hand_out
  hand_out_cases Q a r t calls result h = go a.deliver (is_finite_sample sample) refl refl
    where
      sample : Sample F
      sample = make_sample a.configuration r t

      ran :
          (o : Option ℕ) (end : CallbackResult)
          → a.deliver ≡ true
          → is_finite_sample sample ≡ true
          → a.client.callback ≡ o
          → result ≡ end
          → Q (returning (after_callback sample a.outcome (run_callback o a.client calls end)))
      ran none end p q e f =
          h.delivered p q (ap (λ (x : Option ℕ). callback_end x result) e) a.client
            (Keeps-refl a.client)
      ran (some w) returns p q e f =
          h.delivered p q (ap (λ (x : Option ℕ). callback_end x result) e ∙ f)
            (interlude a.client calls) (interlude-Keeps a.client calls)
      ran (some w) (raises x) p q e f =
          h.failed p q x (ap (λ (y : Option ℕ). callback_end y result) e ∙ f)
            (interlude a.client calls) (interlude-Keeps a.client calls)

      go :
          (deliver finite : Bool)
          → a.deliver ≡ deliver
          → is_finite_sample sample ≡ finite
          → Q (
              returning (
                if not deliver
                then (a.client, a.outcome)
                else if not finite
                then (a.client, some sensor_configuration)
                else after_callback sample a.outcome
                    (run_callback a.client.callback a.client calls result)))
      go false finite p q = h.held_back p
      go true false p q = h.not_finite p q
      go true true p q = ran a.client.callback result p q refl refl

  -- The rule.
  pub handle_record_cases :
      (Q : Impl F × Result (Option SessionResult) → Type 0) (s : Impl F) (r : RawRecord) (t : ℕ)
      (calls : List Call) (result : CallbackResult)
      → (s.health.sensor_configuration ≡ none → Q (unconfigured s r))
      → ((c : SensorConfiguration F)
          → s.health.sensor_configuration ≡ some c
          → Handed Q (account_for s c r t) (make_sample c r t) result)
      → Q (handle_record s r t calls result)
  unfolding handle_record account account_for
  handle_record_cases Q s r t calls result missing found = go s.health.sensor_configuration refl
    where
      go :
          (o : Option (SensorConfiguration F))
          → s.health.sensor_configuration ≡ o
          → Q (handing_out r t calls result (account_with o s r t))
      go none e = missing e
      go (some c) e = hand_out_cases Q (account_for s c r t) r t calls result (found c e)
