-- ===== src/Client/Threads/Started.antt =====
-- `start` of core/src/detail/client_impl.cpp keeps to the phases of the threads.
use py_net_ft.Common.{
  ℕ, ◌≡◌, refl, ap, sym, subst, true, false, Option, none, some, List, [], ◌∷◌, arith,
}
use py_net_ft.Exception.{Result, ok, throws}
use py_net_ft.Client.State.{Impl}
use py_net_ft.Client.Lifecycle.{reaps, start_locked, launch, prepared, rolled_back}
use py_net_ft.Client.Threads.{System, after_start, Joiner, starting, start_step}
use py_net_ft.Client.Threads.Phases.{Holds, IsPhase, idle, running, left, awaited, collected}

module _ {F : Type 0} where
  launches :
      (s : Impl F) (self : ℕ) (callback : Option ℕ) (creation : Result ℕ)
      → Holds s none false true
      → start_locked s self callback creation ≡ launch s callback creation
  unfolding start_locked
  launches s self callback creation h = ground (arith, h)

  start_reaps :
      (s : Impl F) (self w : ℕ) (callback : Option ℕ) (creation : Result ℕ)
      → Holds s (some w) false true
      → start_locked s self callback creation
        ≡ (record s { joining = true; worker = none }, reaps w)
  unfolding start_locked
  start_reaps s self w callback creation h = ground (arith, h)

  start_running :
      (y : System F) (self w : ℕ) (callback : Option ℕ) (creation : Result ℕ)
      → Holds y.client (some w) false false
      → start_step y self callback creation ≡ y
  unfolding start_step start_locked
  start_running y self w callback creation h = ground (arith, h)

  start_waits :
      (y : System F) (self : ℕ) (callback : Option ℕ) (creation : Result ℕ)
      → y.client.joining ≡ true
      → start_step y self callback creation ≡ y
  unfolding start_step start_locked
  start_waits y self callback creation h = ground (arith, h)

  launched-IsPhase :
      (y : System F) (callback : Option ℕ) (creation : Result ℕ)
      → Holds y.client none false true
      → y.looping ≡ []
      → y.leaving ≡ []
      → y.pending_joins ≡ []
      → IsPhase (after_start y creation (launch y.client callback creation))
  unfolding launch prepared rolled_back
  launched-IsPhase y callback (ok t) h a b c =
      running t (ground (arith, h)) refl (ap (λ (us : List ℕ). t ∷ us) a) b c
  launched-IsPhase y callback (throws e) h a b c = idle (ground (arith, h)) a b c

  pub start-IsPhase :
      (y : System F) (self : ℕ) (callback : Option ℕ) (creation : Result ℕ)
      → IsPhase y
      → IsPhase (start_step y self callback creation)
  unfolding start_step
  start-IsPhase y self callback creation (idle h a b c) =
      subst (λ p. IsPhase (after_start y creation p))
        (sym (launches y.client self callback creation h))
        (launched-IsPhase y callback creation h a b c)
  start-IsPhase y self callback creation (running w h e a b c) =
      subst IsPhase (sym (start_running y self w callback creation h)) (running w h e a b c)
  start-IsPhase y self callback (ok n) (left w ts t h a b c) =
      subst (λ p. IsPhase (after_start y (ok n) p))
        (sym (start_reaps y.client self w callback (ok n) h))
        (collected starting w ts t (refl, refl, h.2) a b
          (ap (λ (js : List (Joiner × ℕ)). (starting, w) ∷ js) c))
  start-IsPhase y self callback (throws x) (left w ts t h a b c) =
      subst (λ p. IsPhase (after_start y (throws x) p))
        (sym (start_reaps y.client self w callback (throws x) h))
        (collected starting w ts t (refl, refl, h.2) a b
          (ap (λ (js : List (Joiner × ℕ)). (starting, w) ∷ js) c))
  start-IsPhase y self callback creation (awaited w h e a b c) =
      subst IsPhase (sym (start_waits y self callback creation h.1)) (awaited w h e a b c)
  start-IsPhase y self callback creation (collected k w ts t h a b c) =
      subst IsPhase (sym (start_waits y self callback creation h.1)) (collected k w ts t h a b c)
