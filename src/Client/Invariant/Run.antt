-- ===== src/Client/Invariant/Run.antt =====
-- The rule for a run of the worker, `Client::Impl::run` of core/src/detail/client_impl.cpp.
use py_net_ft.Common.{ℕ, String, Bool, true, false, List, [], ◌∷◌, All, if_both, not, ◌&&◌, ◌||◌}
use py_net_ft.Exception.{Exception, Result, ok, throws}
use py_net_ft.Double.{Double}
use py_net_ft.Types.{FaultCode, SensorConfiguration}
use py_net_ft.FaultLatch.{is_faulted}
use py_net_ft.Transport.{SendResult}
use py_net_ft.Client.State.{Impl, SessionOutcome}
use py_net_ft.Client.Command.{interlude, close_session}
use py_net_ft.Client.Accounting.{tolerates}
use py_net_ft.Client.Session.{SessionEnd, finished, broke, running}
use py_net_ft.Client.Worker.{
  Pass, WorkerNext, next_session, leaves, breaks, waits, set_fault, recover, finish_session,
  back_off, after_session, delayed, after_end, pass, run_loop, run, is_stopped,
}
use py_net_ft.Client.Invariant.{
  AnyAnswer, IsSessionInvariant, budget, weaken_all, receive_session-invariant,
}

-- The budget of a list of passes.
abbrev pub run_budget : {F : Type 0} → List (Pass F) → ℕ
run_budget [] = 0
run_budget (p ∷ passes) = budget p.rounds (run_budget passes)

module _ {F : Type 0} where
  abbrev client_of : WorkerNext F → Impl F
  client_of (next_session s backoff) = s
  client_of (leaves s) = s
  client_of (breaks s e) = s
  client_of (waits s) = s

module _ {F : Type 0} ⦃d : Double F⦄ where
  -- Every pass's discovery ends as `C` says.
  abbrev pub Answered : (Result (SensorConfiguration F) → Type 0) → List (Pass F) → Type 0
  Answered C passes = All (λ (p : Pass F). C p.start.discovery) passes

  pub any_answers : (passes : List (Pass F)) → Answered AnyAnswer passes
  any_answers [] = tt
  any_answers (p ∷ passes) = (tt, any_answers passes)

  -- `P` survives the writes of a session, and those of the worker around it.
  pub record IsRunInvariant (C : Result (SensorConfiguration F) → Type 0) (P : ℕ → Impl F → Type 0)
      : Type 0 where
    pub session : IsSessionInvariant C P
    pub by_close : (n : ℕ) (s : Impl F) (a : SendResult) → P n s → P n (close_session s a)
    pub by_backoff : (n : ℕ) (s : Impl F) (message : String) → P n s → P n (back_off s message)
    pub by_fault :
        (n : ℕ) (s : Impl F) (code : FaultCode) (message : String)
        → P n s
        → P n (set_fault s code message)
    pub by_finish : (n : ℕ) (s : Impl F) (a : SendResult) → P n s → P n (finish_session s a)

  module _ {C : Result (SensorConfiguration F) → Type 0} {P : ℕ → Impl F → Type 0}
      (v : IsRunInvariant C P) where
    open v use {session, by_close, by_backoff, by_fault, by_finish}
    open session use {weaken, by_calls}

    record After (n : ℕ) (next : WorkerNext F) : Type 0 where
      kept : P n (client_of next)

    recover-invariant : (n : ℕ) (s : Impl F) (e : Exception) → P n s → P n (recover s e)
    unfolding recover
    recover-invariant n s e p = if_both (P n) s.stopping p (by_fault n s _ _ p)

    delayed-After :
        (n : ℕ) (s : Impl F) (backoff : F) (p : Pass F) (deadline : Result ℕ)
        → P n s
        → After n (delayed s backoff p deadline)
    delayed-After n s backoff p (throws e) q = record { kept = q }
    delayed-After n s backoff p (ok deadline) q = record { kept = by_calls n s p.while_delayed q }

    after_session-After :
        (n : ℕ) (s : Impl F) (o : SessionOutcome) (backoff : F) (p : Pass F)
        → P n s
        → After n (after_session s o backoff p)
    unfolding after_session
    after_session-After n s o backoff p q =
        if_both (After n) (not (is_stopped o.result) && not (tolerates s.config.recovery_policy))
          (record { kept = by_fault n s _ _ q })
          (if_both (After n) (is_stopped o.result || s.stopping) (record { kept = q })
            (delayed-After n _ _ p _ (by_backoff n s _ q)))

    after_end-After :
        (n : ℕ) (p : Pass F) (backoff : F) (x : Impl F × SessionEnd)
        → P n x.0
        → After n (after_end p backoff x)
    after_end-After n p backoff (s, finished o) q =
        after_session-After n _ o backoff p
          (by_close n _ p.close_sent (by_calls n s p.before_closing q))
    after_end-After n p backoff (s, broke e) q = record { kept = q }
    after_end-After n p backoff (s, running) q = record { kept = q }

    pass-After :
        (n : ℕ) (s : Impl F) (backoff : F) (p : Pass F)
        → C p.start.discovery
        → P (budget p.rounds n) s
        → After n (pass s backoff p)
    unfolding pass
    pass-After n s backoff p k q =
        let q' = by_calls _ s p.before q in
        let s' = interlude s p.before in
        if_both (After n) (s'.stopping || is_faulted s'.fault_latch)
          (record { kept = weaken_all session p.rounds n s' q' })
          (after_end-After n p backoff _
            (receive_session-invariant session p.start p.rounds n s' k q'))

    weaken_run : (passes : List (Pass F)) (s : Impl F) → P (run_budget passes) s → P 0 s
    weaken_run [] s q = q
    weaken_run (p ∷ passes) s q = weaken_run passes s (weaken_all session p.rounds _ s q)

    run_loop-invariant :
        (passes : List (Pass F)) (s : Impl F) (backoff : F) (a : SendResult)
        → Answered C passes
        → P (run_budget passes) s
        → P 0 (run_loop passes s backoff a).0
    unfolding run_loop
    run_loop-invariant [] s backoff a k q = q
    run_loop-invariant (p ∷ passes) s backoff a (k, ks) q =
        go (pass s backoff p) (pass-After (run_budget passes) s backoff p k q)
          (λ s' backoff' q'. run_loop-invariant passes s' backoff' a ks q')
      where
        go :
            (next : WorkerNext F)
            → After (run_budget passes) next
            → ((s' : Impl F) (backoff' : F)
                → P (run_budget passes) s'
                → P 0 (run_loop passes s' backoff' a).0)
            → P 0
                (elim next as (λ _. Impl F × Bool) [
                  | next_session s' backoff' ↦ run_loop passes s' backoff' a
                  | leaves s' ↦ (finish_session s' a, true)
                  | breaks s' e ↦ (finish_session (recover s' e) a, true)
                  | waits s' ↦ (s', false)
                ]).0
        go (next_session s' backoff') h rest = rest s' backoff' h.kept
        go (leaves s') h rest = by_finish 0 s' a (weaken_run passes s' h.kept)
        go (breaks s' e) h rest =
            by_finish 0 _ a (recover-invariant 0 s' e (weaken_run passes s' h.kept))
        go (waits s') h rest = weaken_run passes s' h.kept

    -- The rule for a whole run.
    pub run-invariant :
        (s : Impl F) (passes : List (Pass F)) (a : SendResult)
        → Answered C passes
        → P (run_budget passes) s
        → P 0 (run s passes a).0
    unfolding run
    run-invariant s passes a k q = run_loop-invariant passes s _ a k q
