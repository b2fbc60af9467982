-- ===== src/Client/Backoff/Limited.antt =====
-- The bound of the delays of `run` of core/src/detail/client_impl.cpp.
use py_net_ft.Common.{
  ℕ, suc, ◌+◌, ◌≤◌, ◌≡◌, refl, sym, ap, subst, ◌∙◌, Bool, true, false, List, [], ◌∷◌, ◌++◌, ◌⊎◌,
  inl, inr, arith, if◌then◌else◌, length,
}
use py_net_ft.Exception.{ok}
use py_net_ft.Double.{Double}
use py_net_ft.Types.{FaultCode, Config}
use py_net_ft.Types.Validate.{validate_config}
use py_net_ft.Types.Validate.Usable.{validate_config-IsUsable}
use py_net_ft.Client.State.{Impl}
use py_net_ft.Client.Worker.{
  Pass, WorkerNext, next_session, leaves, breaks, waits, finish_session, recover, next_backoff, run,
  run_loop,
}
use py_net_ft.Client.Faults.Passes.{IsClear, Left, again, pass-Left}
use py_net_ft.Transport.{SendResult}
use py_net_ft.Client.Backoff.{
  GoesOn, here, onward, HasDoubles, doubled, limited_delay, limited_delay-zero, limited_delay-suc,
  IsLimited, Spaced, spaced, pass-Spaced,
}

module _ {F : Type 0} ⦃d : Double F⦄ where
  open d use {lt}

  -- A delay that is the first one, doubled some times and limited.
  abbrev IsLimitedDelay : Config F → ℕ → F → Type 0
  IsLimitedDelay c n b = (k : ℕ) × (k ≤ n) × (b ≡ limited_delay c k)

  next-IsLimitedDelay :
      (l : HasDoubles F) (c : Config F) (n : ℕ) (b base : F)
      → IsLimited c
      → IsLimitedDelay c n b
      → (base ≡ c.reconnect_initial_delay) ⊎ (base ≡ b)
      → IsLimitedDelay c (suc n) (next_backoff base c.reconnect_max_delay)
  next-IsLimitedDelay l c n b base w (k, h, e) (inl p) = (
    1,
    omega arith,
    ap (λ (x : F). next_backoff x c.reconnect_max_delay) (p ∙ sym (limited_delay-zero c w))
        ∙ limited_delay-suc l c 0 w,
  )
  next-IsLimitedDelay l c n b base w (k, h, e) (inr p) = (
    suc k,
    omega arith,
    ap (λ (x : F). next_backoff x c.reconnect_max_delay) (p ∙ e) ∙ limited_delay-suc l c k w,
  )

  IsClear-again : (c : Config F) (s : Impl F) (b : F) → Left c (next_session s b) → IsClear c s
  IsClear-again c s b (again w) = w

  Spaced-again :
      (l : HasDoubles F) (c : Config F) (n : ℕ) (s : Impl F) (b b' : F)
      → IsLimited c
      → IsLimitedDelay c n b
      → Spaced c b (next_session s b')
      → IsLimitedDelay c (suc n) b'
  Spaced-again l c n s b b' w h (spaced {base = base} q) = next-IsLimitedDelay l c n b base w h q

  GoesOn-from :
      (l : HasDoubles F) (c : Config F) (s t : Impl F) (b b' : F) (passes : List (Pass F)) (n : ℕ)
      → IsLimited c
      → IsClear c s
      → IsLimitedDelay c n b
      → GoesOn s b passes t b'
      → IsLimitedDelay c (n + length passes) b'
  GoesOn-from l c s t b b' [] n w v (k, h, e) here = (k, omega arith, e)
  GoesOn-from l c s t b b' (p ∷ passes) n w v h (onward {s' = s1} {b' = b1} q g) =
      let v1 = IsClear-again c s1 b1 (subst (Left c) q (pass-Left c s b p v)) in
      let h1 = Spaced-again l c n s1 b b1 w h (subst (Spaced c b) q (pass-Spaced c s b p v)) in
      let (k, h2, e) = GoesOn-from l c s1 t b1 b' passes (suc n) w v1 h1 g in (k, omega arith, e)

  limited_delay_below :
      (l : HasDoubles F) (c : Config F) (n : ℕ)
      → lt c.reconnect_max_delay (limited_delay c n) ≡ false
  limited_delay_below l c n =
      go (lt c.reconnect_max_delay (doubled c.reconnect_initial_delay n)) refl
    where
      go :
          (b : Bool)
          → lt c.reconnect_max_delay (doubled c.reconnect_initial_delay n) ≡ b
          → lt c.reconnect_max_delay
              (if b then c.reconnect_max_delay else doubled c.reconnect_initial_delay n)
            ≡ false
      go true e = l.lt_irreflexive c.reconnect_max_delay
      go false e = e

  run_loop-GoesOn :
      (s t : Impl F) (b b' : F) (passes rest : List (Pass F)) (a : SendResult)
      → GoesOn s b passes t b'
      → run_loop (passes ++ rest) s b a ≡ run_loop rest t b' a
  unfolding run_loop
  run_loop-GoesOn s t b b' [] rest a here = refl
  run_loop-GoesOn s t b b' (p ∷ passes) rest a (onward {s' = s1} {b' = b1} q g) =
      ap
        (λ (x : WorkerNext F). elim x as (λ _. Impl F × Bool) [
          | next_session s' b' ↦ run_loop (passes ++ rest) s' b' a
          | leaves s' ↦ (finish_session s' a, true)
          | breaks s' e ↦ (finish_session (recover s' e) a, true)
          | waits s' ↦ (s', false)
        ])
        q
      ∙ run_loop-GoesOn s1 t b1 b' passes rest a g

  -- Given what IEEE arithmetic says of doubling (`HasDoubles`), for a configuration that `validate`
  -- accepts and a worker that begins with no fault latched: when it has gone on from any number of
  -- passes, the delay it holds for the next is the first delay, doubled at most so many times, and cut
  -- at the greatest delay, above which it never is; and a run over those passes and more is the run over
  -- the rest, from there.
  pub GoesOn-limited :
      (l : HasDoubles F) (s t : Impl F) (b : F) (passes rest : List (Pass F)) (clock : ℕ → ℕ)
      (a : SendResult)
      → validate_config s.config clock ≡ ok tt
      → s.fault_latch ≡ FaultCode.none
      → GoesOn s s.config.reconnect_initial_delay passes t b
      → ((k : ℕ) × (k ≤ length passes) × (b ≡ limited_delay s.config k))
        × (lt s.config.reconnect_max_delay b ≡ false)
        × (run s (passes ++ rest) a ≡ run_loop rest t b a)
  GoesOn-limited l s t b passes rest clock a e f g =
      let u = validate_config-IsUsable s.config clock e in
      let w : IsLimited s.config = record {
        initial_le = u.delays;
        finite = u.max_delay.finite;
        positive = u.max_delay.positive;
      } in
      let (k, h, q) =
        GoesOn-from l s.config s t s.config.reconnect_initial_delay b passes 0 w
          (record { latch_eq = f; config_eq = refl })
          (0, omega arith, sym (limited_delay-zero s.config w)) g in
      (
        (k, omega arith, q),
        ap (lt s.config.reconnect_max_delay) q ∙ limited_delay_below l s.config k,
        unfold run in run_loop-GoesOn s t _ b passes rest a g,
      )
