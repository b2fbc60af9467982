-- ===== src/Client/Delivery.antt =====
-- Which records reach the user: what `handle_record` of core/src/detail/client_impl.cpp delivers, and what it
-- withholds.
use py_net_ft.Common.{
  ◌+◌, ◌%◌, ◌^◌, ◌≤◌, ℕ, ◌≡◌, refl, ap, ◌∙◌, sym, Bool, true, false, not, ◌&&◌, Option, some,
  if◌then◌else◌, arith, List, subst, inc64,
}
use py_net_ft.Exception.{Result}
use py_net_ft.Double.{Double}
use py_net_ft.Protocol.{RawRecord}
use py_net_ft.Sequence.{
  RdtSequenceTracker, FtSequenceTracker, SequenceKind, FtSequenceKind, rdt_observe, ft_observe,
}
use py_net_ft.Status.{classify_status, error, fine, warn, StatusSeverity}
use py_net_ft.Types.{SensorConfiguration, Sample}
use py_net_ft.Client.State.{Impl, SessionResult}
use py_net_ft.Client.Command.{Call}
use py_net_ft.Client.Accounting.{
  deliver_sample, record_callback_error, passes, delivers_rdt, is_discontinuity,
}
use py_net_ft.Client.Record.{
  CallbackResult, returns, raises, account_for, handle_record, make_sample, is_finite_sample,
  too_soon,
}
use py_net_ft.Client.Kept.{account_for-Agree, Keeps-Agree}
use py_net_ft.Client.Cases.{handle_record_cases, callback_end, Handed}

abbrev has_returned : CallbackResult → Bool
has_returned returns = true
has_returned (raises e) = false

held : (a b c d : Bool) → a && not (a && b) ≡ false → a && not b && c && d ≡ false
held a b c d e = ground arith

infinite : (a b c d : Bool) → c ≡ false → a && not b && c && d ≡ false
infinite a b c d e = ground arith

failing : (a b c d : Bool) → d ≡ false → a && not b && c && d ≡ false
failing a b c d e = ground arith

passed :
    (a b c d : Bool) → a && not (a && b) ≡ true → c ≡ true → d ≡ true → a && not b && c && d ≡ true
passed a b c d e f g = ground arith

blocked : (a b c d : Bool) → a ≡ false → a && not b && c && d ≡ false
blocked a b c d e = ground arith

passes-withheld :
    (b : Bool) (severity : StatusSeverity) (rdt : SequenceKind) (ft : FtSequenceKind)
    → delivers_rdt rdt && not (is_discontinuity ft) ≡ false
    → passes b rdt severity ft ≡ false
unfolding passes
passes-withheld b fine rdt ft e = e
passes-withheld b warn rdt ft e = e
passes-withheld b error rdt ft e = ground arith

module _ {F : Type 0} where
  -- The trackers hold the last numbers `p`, and `n` is the number of the record: of the RDT sequence, or of the
  -- F/T one where no restart may be confirmed.
  pub data IsBehind (s : Impl F) (r : RawRecord) (p n : ℕ) : Type 0 where
    rdt_behind :
        s.rdt_sequence.has_last ≡ true
        → s.rdt_sequence.previous ≡ p
        → r.rdt_sequence ≡ n
        → IsBehind s r p n
    ft_behind :
        s.ft_sequence.has_last ≡ true
        → s.ft_sequence.has_restart_candidate ≡ false
        → s.ft_sequence.previous ≡ p
        → r.ft_sequence ≡ n
        → IsBehind s r p n

rdt_repeats :
    (t : RdtSequenceTracker) (p n : ℕ)
    → t.has_last ≡ true
    → t.previous ≡ p % 2 ^ 32
    → n ≤ p
    → p ≤ n + 2 ^ 31
    → delivers_rdt (rdt_observe t (n % 2 ^ 32)).1.kind ≡ false
unfolding rdt_observe
rdt_repeats t p n l e le near = ground (arith, l, e)

ft_repeats :
    (t : FtSequenceTracker) (p n : ℕ)
    → t.has_last ≡ true
    → t.has_restart_candidate ≡ false
    → t.previous ≡ p % 2 ^ 32
    → n ≤ p
    → p ≤ n + 2 ^ 31
    → is_discontinuity (ft_observe t (n % 2 ^ 32)).1 ≡ true
unfolding ft_observe
ft_repeats t p n l m e le near = ground (arith, l, m, e)

behind-withheld :
    {F : Type 0} (s : Impl F) (r : RawRecord) (p n : ℕ)
    → n ≤ p
    → p ≤ n + 2 ^ 31
    → IsBehind s r (p % 2 ^ 32) (n % 2 ^ 32)
    → delivers_rdt (rdt_observe s.rdt_sequence r.rdt_sequence).1.kind
        && not (is_discontinuity (ft_observe s.ft_sequence r.ft_sequence).1)
      ≡ false
behind-withheld s r p n le near (rdt_behind l e f) =
    let k = rdt_repeats s.rdt_sequence p n l e le near in rw f (ground (arith, k))
behind-withheld s r p n le near (ft_behind l m e f) =
    let k = ft_repeats s.ft_sequence p n l m e le near in rw f (ground (arith, k))

module _ {F : Type 0} ⦃d : Double F⦄ where
  abbrev pub lets_pass : Impl F → RawRecord → Bool
  lets_pass s r =
      passes s.config.deliver_samples_with_error_status
        (rdt_observe s.rdt_sequence r.rdt_sequence).1.kind (classify_status r.status)
        (ft_observe s.ft_sequence r.ft_sequence).1

  -- Whether a record is delivered, for the configuration that is known.
  abbrev pub is_delivered : Impl F → SensorConfiguration F → RawRecord → ℕ → CallbackResult → Bool
  is_delivered s c r t result =
      lets_pass s r
      && not (too_soon s.config.sample_rate_limit_hz s.last_delivery_at t)
      && is_finite_sample (make_sample c r t)
      && has_returned (callback_end s.callback result)

  -- What `handle_record_delivers` states, of the client that is left.
  record Shows (delivers : Bool) (s : Impl F) (sample : Sample F) (u : Impl F) : Type 0 where
    latest_eq : u.latest ≡ (if delivers then some sample else s.latest)
    generation_eq :
        u.delivered_generation ≡ (if delivers then s.generation else s.delivered_generation)
    time_eq : u.last_delivery_at ≡ (if delivers then sample.received_at else s.last_delivery_at)
    count_eq :
        u.health.delivered_count
        ≡ (if delivers then inc64 s.health.delivered_count else s.health.delivered_count)

  hidden :
      (b : Bool) (s : Impl F) (sample : Sample F) (u : Impl F)
      → b ≡ false
      → u.latest ≡ s.latest
      → u.delivered_generation ≡ s.delivered_generation
      → u.last_delivery_at ≡ s.last_delivery_at
      → u.health.delivered_count ≡ s.health.delivered_count
      → Shows b s sample u
  hidden b s sample u e p q w n = ground (arith, e, p, q, w, n)

  shown :
      (b : Bool) (s : Impl F) (sample : Sample F) (u : Impl F)
      → b ≡ true
      → u.latest ≡ some sample
      → u.delivered_generation ≡ s.generation
      → u.last_delivery_at ≡ sample.received_at
      → u.health.delivered_count ≡ inc64 s.health.delivered_count
      → Shows b s sample u
  shown b s sample u e p q w n = ground (arith, e, p, q, w, n)

  handled :
      (s : Impl F) (c : SensorConfiguration F) (r : RawRecord) (t : ℕ) (result : CallbackResult)
      → Handed
          (λ (x : Impl F × Result (Option SessionResult)).
            Shows (is_delivered s c r t result) s (make_sample c r t) x.0)
          (account_for s c r t)
          (make_sample c r t)
          result
  unfolding account_for deliver_sample record_callback_error
  handled s c r t result =
      let same_count = (account_for-Agree s c r t).delivered_eq in
      record {
        held_back = λ p. hidden _ s _ _ (held _ _ _ _ p) refl refl refl same_count;
        not_finite = λ p q. hidden _ s _ _ (infinite _ _ _ _ q) refl refl refl same_count;
        delivered = λ p q f u k.
            shown _ s _ _ (passed _ _ _ _ p q (ap has_returned f)) refl k.generation_eq refl
              (ap inc64 ((Keeps-Agree _ u k).delivered_eq ∙ same_count));
        failed = λ p q x f u k.
            hidden _ s _ _
              (failing (lets_pass s r) (too_soon s.config.sample_rate_limit_hz s.last_delivery_at t)
                (is_finite_sample (make_sample c r t)) _ (ap has_returned f))
              k.latest_eq k.delivered_generation_eq k.last_delivery_at_eq
              ((Keeps-Agree _ u k).delivered_eq ∙ same_count);
      }

  -- With the sensor configuration known, the sample of a record becomes the latest one, its generation
  -- the delivered one and its time that of the last delivery, and it is counted as delivered, exactly when
  -- the sequences and the status let it pass, the rate limit does not hold it back, the converted values
  -- are finite, and the callback, where there is one, returns; otherwise all four stay as they were.
  pub handle_record_delivers :
      (s : Impl F) (c : SensorConfiguration F) (r : RawRecord) (t : ℕ) (calls : List Call)
      (result : CallbackResult)
      → s.health.sensor_configuration ≡ some c
      → let u = (handle_record s r t calls result).0 in
        let delivers = is_delivered s c r t result in
        (u.latest ≡ (if delivers then some (make_sample c r t) else s.latest))
        × (u.delivered_generation ≡ (if delivers then s.generation else s.delivered_generation))
        × (u.last_delivery_at ≡ (if delivers then t else s.last_delivery_at))
        × (u.health.delivered_count
            ≡ (if delivers then inc64 s.health.delivered_count else s.health.delivered_count))
  unfolding make_sample
  handle_record_delivers s c r t calls result e =
      let w =
        handle_record_cases
          (λ (x : Impl F × Result (Option SessionResult)).
            Shows (is_delivered s c r t result) s (make_sample c r t) x.0)
          s r t calls result (λ f. ground (arith, e, f))
          (λ c' f.
            subst
              (λ (y : SensorConfiguration F).
                Handed
                  (λ (x : Impl F × Result (Option SessionResult)).
                    Shows (is_delivered s c r t result) s (make_sample c r t) x.0)
                  (account_for s y r t) (make_sample y r t) result)
              (same c c' (sym e ∙ f)) (handled s c r t result)) in
      (w.latest_eq, w.generation_eq, w.time_eq, w.count_eq)
    where
      same : (x y : SensorConfiguration F) → some x ≡ some y → x ≡ y
      same x y p = ground arith

  -- With the sensor configuration known, a record is never delivered, whatever its status and the options,
  -- if its RDT number is that of the last one followed or from 1 to 2 ^ 31 behind it, and neither if, with no
  -- candidate for a restart, its F/T number is so: `p` is the last number and `n` that of the record, before
  -- they are wrapped to 32 bits.
  pub handle_record_withholds :
      (s : Impl F) (c : SensorConfiguration F) (r : RawRecord) (t p n : ℕ) (calls : List Call)
      (result : CallbackResult)
      → s.health.sensor_configuration ≡ some c
      → n ≤ p
      → p ≤ n + 2 ^ 31
      → IsBehind s r (p % 2 ^ 32) (n % 2 ^ 32)
      → let u = (handle_record s r t calls result).0 in
        (u.latest ≡ s.latest)
        × (u.delivered_generation ≡ s.delivered_generation)
        × (u.health.delivered_count ≡ s.health.delivered_count)
  handle_record_withholds s c r t p n calls result e le near b =
      let (x, y, w, m) = handle_record_delivers s c r t calls result e in
      let f : is_delivered s c r t result ≡ false =
        blocked (lets_pass s r) _ _ _
          (passes-withheld _ (classify_status r.status) _ _ (behind-withheld s r p n le near b)) in
      (
        x ∙ ap (λ (b : Bool). if b then some (make_sample c r t) else s.latest) f,
        y ∙ ap (λ (b : Bool). if b then s.generation else s.delivered_generation) f,
        m
            ∙ ap
                (λ (b : Bool).
                  if b then inc64 s.health.delivered_count else s.health.delivered_count)
                f,
      )
