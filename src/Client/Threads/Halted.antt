-- ===== src/Client/Threads/Halted.antt =====
-- `stop` of core/src/detail/client_impl.cpp, up to its join, keeps to the phases of the threads.
use py_net_ft.Common.{
  ℕ, ◌≡◌, refl, ap, sym, subst, ◌⊎◌, inl, inr, ◌∙◌, ◌==◌, true, false, none, some, List, ◌∷◌,
  if◌then◌else◌, not, ◌&&◌, if_both, if_cases, arith,
}
use py_net_ft.Types.{Config}
use py_net_ft.Types
use py_net_ft.FaultLatch.{is_faulted}
use py_net_ft.Transport.{SendResult, shutdown}
use py_net_ft.Client.State.{Impl}
use py_net_ft.Client.Command.{StopStep, returned, joins, set_state, stop_locked, end_stream}
use py_net_ft.Client.Threads.{System, after_stop, Joiner, stopping, has, stop_step, show_stopped}
use py_net_ft.Client.Threads.Kept.{StandsAs, end_stream-StandsAs, show_stopped-StandsAs}
use py_net_ft.Client.Threads.Phases.{Holds, IsPhase, idle, running, left, awaited, collected, kept}

module _ {F : Type 0} where
  -- `stop_locked`, when the session has been ended and the transport shut down.
  abbrev asked : Impl F → SendResult → Impl F
  asked s sent =
      let ended = end_stream (record s { stopping = true }) sent in
      record ended { transport = shutdown ended.transport }

  abbrev decided : Impl F → ℕ → Impl F × StopStep
  decided a self =
      if not a.worker_exited && a.active_worker_id == self
      then (a, returned)
      else if a.joining
      then (a, StopStep.blocked)
      else elim a.worker [
        | none ↦ (if is_faulted a.fault_latch then a else set_state Types.stopped a, returned)
        | some w ↦ (record a { joining = true; worker = none }, joins w)
      ]

  stop_locked-decided :
      (s : Impl F) (self : ℕ) (sent : SendResult)
      → stop_locked s self sent ≡ decided (asked s sent) self
  unfolding stop_locked
  stop_locked-decided s self sent = refl

  asked-StandsAs : (s : Impl F) (sent : SendResult) → StandsAs s (asked s sent)
  asked-StandsAs s sent = ground (arith, end_stream-StandsAs (record s { stopping = true }) sent)

  decides_idle :
      (a : Impl F) (self : ℕ)
      → Holds a none false true
      → decided a self ≡ (show_stopped a, returned)
  unfolding show_stopped
  decides_idle a self h = ground (arith, h)

  decides_running :
      (a : Impl F) (self w : ℕ)
      → Holds a (some w) false false
      → a.active_worker_id ≡ w
      → decided a self ≡ (
          if w == self
          then (a, returned)
          else (record a { joining = true; worker = none }, joins w))
  decides_running a self w h e = ground (arith, h, e)

  decides_left :
      (a : Impl F) (self w : ℕ)
      → Holds a (some w) false true
      → decided a self ≡ (record a { joining = true; worker = none }, joins w)
  decides_left a self w h = ground (arith, h)

  decides_waiting :
      (y : System F) (self : ℕ) → y.client.joining ≡ true → after_stop y (decided y.client self) ≡ y
  decides_waiting y self h = ground (arith, h)

  decided-IsPhase :
      (y : System F) (self : ℕ) → IsPhase y → IsPhase (after_stop y (decided y.client self))
  decided-IsPhase y self (idle h a b c) =
      subst (λ p. IsPhase (after_stop y p)) (sym (decides_idle y.client self h))
        (kept y (show_stopped y.client) (show_stopped-StandsAs y.client) (idle h a b c))
  decided-IsPhase y self (running w h e a b c) =
      subst (λ p. IsPhase (after_stop y p)) (sym (decides_running y.client self w h e))
        (if_both (λ (p : Impl F × StopStep). IsPhase (after_stop y p)) (w == self)
          (running w h e a b c)
          (awaited w (refl, refl, h.2) e a b
            (ap (λ (js : List (Joiner × ℕ)). (stopping, w) ∷ js) c)))
  decided-IsPhase y self (left w ts t h a b c) =
      subst (λ p. IsPhase (after_stop y p)) (sym (decides_left y.client self w h))
        (collected stopping w ts t (refl, refl, h.2) a b
          (ap (λ (js : List (Joiner × ℕ)). (stopping, w) ∷ js) c))
  decided-IsPhase y self (awaited w h e a b c) =
      subst IsPhase (sym (decides_waiting y self h.1)) (awaited w h e a b c)
  decided-IsPhase y self (collected k w ts t h a b c) =
      subst IsPhase (sym (decides_waiting y self h.1)) (collected k w ts t h a b c)

  pub stop-IsPhase :
      (y : System F) (self : ℕ) (sent : SendResult) → IsPhase y → IsPhase (stop_step y self sent)
  unfolding stop_step
  stop-IsPhase y self sent p =
      subst (λ q. IsPhase (after_stop y q)) (sym (stop_locked-decided y.client self sent))
        (decided-IsPhase (record y { client = asked y.client sent }) self
          (kept y (asked y.client sent) (asked-StandsAs y.client sent) p))

  decides_own :
      (a : Impl F) (self : ℕ)
      → a.worker_exited ≡ false
      → a.active_worker_id ≡ self
      → (decided a self).1 ≡ returned
  decides_own a self e f = ground (arith, e, f)

  -- The worker's own `stop` does not join.
  pub stop_locked-returned :
      (s : Impl F) (self : ℕ) (sent : SendResult)
      → s.worker_exited ≡ false
      → s.active_worker_id ≡ self
      → (stop_locked s self sent).1 ≡ returned
  stop_locked-returned s self sent e f =
      let k = asked-StandsAs s sent in
      ap (λ (p : Impl F × StopStep). p.1) (stop_locked-decided s self sent)
      ∙ decides_own (asked s sent) self (k.exited_eq ∙ e) (k.active_eq ∙ f)

  abbrev Settles : System F → Impl F × StopStep → Type 0
  Settles y p = ((after_stop y p).client.joining ≡ true) ⊎ ((after_stop y p).client.worker ≡ none)

  decided-joining :
      (y : System F) (self : ℕ)
      → IsPhase y
      → has self y.looping ≡ false
      → Settles y (decided y.client self)
  decided-joining y self (idle h a b c) l =
      subst (Settles y) (sym (decides_idle y.client self h))
        (inr ((show_stopped-StandsAs y.client).worker_eq ∙ h.0))
  decided-joining y self (running w h e a b c) l =
      subst (Settles y) (sym (decides_running y.client self w h e))
        (if_cases (Settles y) (w == self) (λ q. ground (arith, q, l, a)) (λ q. inl refl))
  decided-joining y self (left w ts t h a b c) l =
      subst (Settles y) (sym (decides_left y.client self w h)) (inl refl)
  decided-joining y self (awaited w h e a b c) l =
      inl (ap (λ (z : System F). z.client.joining) (decides_waiting y self h.1) ∙ h.1)
  decided-joining y self (collected k w ts t h a b c) l =
      inl (ap (λ (z : System F). z.client.joining) (decides_waiting y self h.1) ∙ h.1)

  pub stop_step-stopping :
      (y : System F) (self : ℕ) (sent : SendResult) → (stop_step y self sent).client.stopping ≡ true
  unfolding stop_step stop_locked end_stream
  stop_step-stopping y self sent = ground arith

  -- After a `stop` of another thread, either a join is waited for or no worker is held.
  pub stop_step-joining :
      (y : System F) (self : ℕ) (sent : SendResult)
      → IsPhase y
      → has self y.looping ≡ false
      → ((stop_step y self sent).client.joining ≡ true)
        ⊎ ((stop_step y self sent).client.worker ≡ none)
  unfolding stop_step
  stop_step-joining y self sent p l =
      subst (Settles y) (sym (stop_locked-decided y.client self sent)) (
        decided-joining (record y { client = asked y.client sent }) self
          (kept y (asked y.client sent) (asked-StandsAs y.client sent) p) l)
