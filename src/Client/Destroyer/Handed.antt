-- ===== src/Client/Destroyer/Handed.antt =====
-- What becomes of a client of core/src/client.cpp that is destroyed, on whichever thread.
use mathlib.Core.List.{append_assoc, append-nil}
use py_net_ft.Common.{ℕ, ◌≡◌, refl, ap, sym, ◌∙◌, List, [], ◌∷◌, ◌++◌}
use py_net_ft.Double.{Double}
use py_net_ft.Client.Destroyer.{
  DeferredDestroyer, after_pass, front, enqueue, run_pass, Event, hands_over, passes, run_events,
}
use py_net_ft.Client.Threads.{System, Reachable, next, Steps, done, then}

abbrev pub handed_over : List Event → List ℕ
handed_over [] = []
handed_over (hands_over address ∷ events) = address ∷ handed_over events
handed_over (passes ∷ events) = handed_over events

pass_keeps :
    (taken : List ℕ) (q : DeferredDestroyer) (pending : List ℕ)
    → q.pending ≡ pending
    → let p = after_pass taken q (front pending) in p.0 ++ p.1.pending ≡ taken ++ q.pending
pass_keeps taken q [] e = refl
pass_keeps taken q (a ∷ rest) e =
    append_assoc taken (a ∷ []) rest ∙ ap (λ (us : List ℕ). taken ++ us) (sym e)

-- However the destructors and the passes of the loop come, the clients that have been taken to be stopped,
-- followed by those that are pending, are those that were there before and then those that were handed
-- over, in that order: none is lost, none is stopped twice, and none overtakes another.
pub run_events-handed_over :
    (events : List Event) (taken : List ℕ) (q : DeferredDestroyer)
    → (run_events events taken q).0 ++ (run_events events taken q).1.pending
      ≡ (taken ++ q.pending) ++ handed_over events
unfolding run_events run_pass enqueue
run_events-handed_over [] taken q = sym (append-nil (taken ++ q.pending))
run_events-handed_over (hands_over address ∷ events) taken q =
    run_events-handed_over events taken (enqueue q address)
    ∙ ap (λ (us : List ℕ). us ++ handed_over events)
        (sym (append_assoc taken q.pending (address ∷ [])))
    ∙ append_assoc (taken ++ q.pending) (address ∷ []) (handed_over events)
run_events-handed_over (passes ∷ events) taken q =
    let p = after_pass taken q (run_pass q) in
    run_events-handed_over events p.0 p.1
    ∙ ap (λ (us : List ℕ). us ++ handed_over events) (pass_keeps taken q q.pending refl)

module _ {F : Type 0} ⦃d : Double F⦄ where
  pub Steps-Reachable : (y z : System F) → Reachable y → Steps y z → Reachable z
  Steps-Reachable y z r done = r
  Steps-Reachable y z r (then {z = x} s steps) = Steps-Reachable x z (next r s) steps
