-- ===== src/Client/Backoff.antt =====
-- The delays between the sessions of `run` of core/src/detail/client_impl.cpp.
pub mod Limited
use py_net_ft.Common.{
  ℕ, zero, suc, ◌+◌, ◌≤◌, ◌≡◌, refl, sym, ap, subst, ◌∙◌, Bool, true, false, not, ◌&&◌, ◌||◌, List,
  [], ◌∷◌, ◌⊎◌, inl, inr, arith, if_both, if◌then◌else◌, length,
}
use py_net_ft.Exception.{Exception, Result, ok, throws}
use py_net_ft.Double.{Double}
use py_net_ft.Types.{FaultCode, Config}
use py_net_ft.Types.Validate.{validate_config}
use py_net_ft.Types.Validate.Usable.{IsUsable, validate_config-IsUsable}
use py_net_ft.FaultLatch.{is_faulted}
use py_net_ft.Client.State.{Impl, SessionOutcome}
use py_net_ft.Client.Command.{interlude, close_session}
use py_net_ft.Client.Frame.{interlude-Keeps}
use py_net_ft.Client.Accounting.{tolerates}
use py_net_ft.Client.Session.{SessionEnd, finished, broke, running, receive_session}
use py_net_ft.Client.Worker.{
  Pass, WorkerNext, next_session, leaves, breaks, waits, next_backoff, after_session, delayed,
  after_end, pass, is_stopped,
}
use py_net_ft.Client.Invariant.{AnyAnswer, receive_session-invariant}
use py_net_ft.Client.Faults.Passes.{
  IsClear, Keeps-IsClear, IsClear-session, close_session-Keeps, Left, again, pass-Left,
}

-- The worker goes on from pass to pass, each with its delay, up to a client and the delay of the next.
pub data GoesOn {F : Type 0} ⦃d : Double F⦄ : Impl F → F → List (Pass F) → Impl F → F → Type 0 where
  here : {s : Impl F} {b : F} → GoesOn s b [] s b
  onward :
      {s s' t : Impl F} {b b' b'' : F} {p : Pass F} {passes : List (Pass F)}
      → pass s b p ≡ next_session s' b'
      → GoesOn s' b' passes t b''
      → GoesOn s b (p ∷ passes) t b''

module _ (F : Type 0) ⦃d : Double F⦄ where
  open d use {of_nat, mul, lt, le, is_finite}

  -- What IEEE arithmetic gives: twice a finite and positive number is above it, and twice a number above a
  -- positive one is above that too.
  pub record HasDoubles : Type 0 where
    pub double_above :
        (x : F) → is_finite x ≡ true → le x (of_nat 0) ≡ false → lt x (mul x (of_nat 2)) ≡ true
    pub stays_above :
        (x y : F) → le x (of_nat 0) ≡ false → lt x y ≡ true → lt x (mul y (of_nat 2)) ≡ true
    pub lt_irreflexive : (x : F) → lt x x ≡ false

module _ {F : Type 0} ⦃d : Double F⦄ where
  open d use {of_nat, mul, lt, le, is_finite}

  -- The first delay doubled `n` times, with no limit.
  abbrev pub doubled : F → ℕ → F
  doubled initial zero = initial
  doubled initial (suc n) = mul (doubled initial n) (of_nat 2)

  -- The same with the limit.
  abbrev pub limited_delay : Config F → ℕ → F
  limited_delay c n =
      let x = doubled c.reconnect_initial_delay n in
      if lt c.reconnect_max_delay x then c.reconnect_max_delay else x

  pub next_limited :
      (l : HasDoubles F) (m x : F)
      → is_finite m ≡ true
      → le m (of_nat 0) ≡ false
      → next_backoff (if lt m x then m else x) m
        ≡ (if lt m (mul x (of_nat 2)) then m else mul x (of_nat 2))
  unfolding next_backoff
  next_limited l m x f p = go (lt m x) refl
    where
      go :
          (b : Bool)
          → lt m x ≡ b
          → (let y = if b then m else x in if lt m (mul y (of_nat 2)) then m else mul y (of_nat 2))
            ≡ (if lt m (mul x (of_nat 2)) then m else mul x (of_nat 2))
      go true e = rw (l.double_above m f p, l.stays_above m x p e)
      go false e = refl

  -- The first delay is not above the limit, and the limit is finite and positive.
  pub record IsLimited (c : Config F) : Type 0 where
    pub initial_le : lt c.reconnect_max_delay c.reconnect_initial_delay ≡ false
    pub finite : is_finite c.reconnect_max_delay ≡ true
    pub positive : le c.reconnect_max_delay (of_nat 0) ≡ false

  pub limited_delay-zero :
      (c : Config F) → IsLimited c → limited_delay c 0 ≡ c.reconnect_initial_delay
  limited_delay-zero c w = rw w.initial_le refl

  pub limited_delay-suc :
      (l : HasDoubles F) (c : Config F) (n : ℕ)
      → IsLimited c
      → next_backoff (limited_delay c n) c.reconnect_max_delay ≡ limited_delay c (suc n)
  limited_delay-suc l c n w =
      next_limited l c.reconnect_max_delay (doubled c.reconnect_initial_delay n) w.finite w.positive

  -- The delay after a pass is made from the first one, or from the one before it.
  pub data Spaced (c : Config F) (b : F) : WorkerNext F → Type 0 where
    spaced :
        {s : Impl F} {base : F}
        → (base ≡ c.reconnect_initial_delay) ⊎ (base ≡ b)
        → Spaced c b (next_session s (next_backoff base c.reconnect_max_delay))
    left : {s : Impl F} → Spaced c b (leaves s)
    broken : {s : Impl F} {e : Exception} → Spaced c b (breaks s e)
    waiting : {s : Impl F} → Spaced c b (waits s)

  base-cases :
      (c : Config F) (b : F) (valid : Bool)
      → let base = if valid then c.reconnect_initial_delay else b in
        (base ≡ c.reconnect_initial_delay) ⊎ (base ≡ b)
  base-cases c b true = inl refl
  base-cases c b false = inr refl

  delayed-Spaced :
      (s : Impl F) (b base : F) (p : Pass F) (deadline : Result ℕ)
      → (base ≡ s.config.reconnect_initial_delay) ⊎ (base ≡ b)
      → Spaced s.config b (delayed s base p deadline)
  delayed-Spaced s b base p (throws e) w = broken
  delayed-Spaced s b base p (ok deadline) w = spaced w

  after_session-Spaced :
      (s : Impl F) (o : SessionOutcome) (b : F) (p : Pass F)
      → Spaced s.config b (after_session s o b p)
  unfolding after_session
  after_session-Spaced s o b p =
      if_both (Spaced s.config b)
        (not (is_stopped o.result) && not (tolerates s.config.recovery_policy)) left
        (if_both (Spaced s.config b) (is_stopped o.result || s.stopping) left
          (delayed-Spaced _ b _ p _ (base-cases s.config b o.received_valid_record)))

  after_end-Spaced :
      (c : Config F) (p : Pass F) (b : F) (x : Impl F × SessionEnd)
      → IsClear c x.0
      → Spaced c b (after_end p b x)
  after_end-Spaced c p b (s, finished o) w =
      let v = close_session (interlude s p.before_closing) p.close_sent in
      let wv =
        Keeps-IsClear _ v (close_session-Keeps _ p.close_sent)
          (Keeps-IsClear s _ (interlude-Keeps s p.before_closing) w) in
      subst (λ (x : Config F). Spaced x b (after_session v o b p)) wv.config_eq
        (after_session-Spaced v o b p)
  after_end-Spaced c p b (s, broke e) w = broken
  after_end-Spaced c p b (s, running) w = waiting

  pub pass-Spaced :
      (c : Config F) (s : Impl F) (b : F) (p : Pass F) → IsClear c s → Spaced c b (pass s b p)
  unfolding pass
  pass-Spaced c s b p w =
      let s' = interlude s p.before in
      let w' = Keeps-IsClear s s' (interlude-Keeps s p.before) w in
      if_both (Spaced c b) (s'.stopping || is_faulted s'.fault_latch) left (
        after_end-Spaced c p b _
          (receive_session-invariant (IsClear-session c) p.start p.rounds 0 s' tt w'))
