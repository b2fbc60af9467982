-- ===== src/Client/Faults.antt =====
-- How the worker of core/src/detail/client_impl.cpp ends: its fault latch, its state, and what is left open.
pub mod Passes
use py_net_ft.Common.{
  ℕ, String, ◌≡◌, ◌≢◌, refl, ap, sym, subst, ◌∙◌, Bool, true, false, not, ◌&&◌, ◌||◌, Option, none,
  List, [], ◌∷◌, ◌⊎◌, inl, inr, arith, if_both, if_cases, if◌then◌else◌,
}
use py_net_ft.Exception.{Exception, Result, ok, throws}
use py_net_ft.Double.{Double}
use py_net_ft.Types.{FaultCode, SensorConfiguration, Config, fail_stop}
use py_net_ft.Types
use py_net_ft.FaultLatch.{is_faulted, publish}
use py_net_ft.Transport.{SendResult}
use py_net_ft.Transport
use py_net_ft.Protocol.{RawRecord}
use py_net_ft.Client.State.{Impl, SessionResult, SessionOutcome, fault_for, apply_configuration}
use py_net_ft.Client.Command.{Call, interlude, close_session, end_stream}
use py_net_ft.Client.Frame.{Keeps, interlude-Keeps, end_stream-Keeps}
use py_net_ft.Client.Accounting.{tolerates, deliver_sample, record_callback_error}
use py_net_ft.Client.Cases.{handle_record_cases}
use py_net_ft.Client.Record.{CallbackResult, handle_record, account_for}
use py_net_ft.Client.Session.{SessionEnd, finished, broke, running, receive_session}
use py_net_ft.Client.Worker.{
  Pass, WorkerNext, next_session, leaves, breaks, waits, set_fault, recover, finish_session,
  after_session, delayed, after_end, pass, run_loop, run, is_stopped, message_of,
}
use py_net_ft.Client.Invariant.{IsSessionInvariant, receive_session-invariant}
use Passes.{
  IsShown, IsClear, Keeps-IsClear, IsClear-session, Settled, close_session-Keeps, recover-Settled,
  Left, pass-Left, again, left, broken, waiting,
}

module _ {F : Type 0} ⦃d : Double F⦄ where
  -- How the thread leaves the client.
  pub record IsEnded (t : Impl F) : Type 0 where
    pub exited : t.worker_exited ≡ true
    pub no_session : t.session_started ≡ false
    pub no_socket : t.transport.socket ≡ none
    pub settled : ((t.fault_latch ≡ FaultCode.none) × (t.health.state ≡ Types.stopped)) ⊎ IsShown t

  finish_session-IsEnded :
      (c : Config F) (s : Impl F) (a : SendResult) → Settled c s → IsEnded (finish_session s a)
  unfolding finish_session close_session Transport.close end_stream
  finish_session-IsEnded c s a (inl w) = ground (arith, w.latch_eq)
  finish_session-IsEnded c s a (inr w) = ground arith

  run_loop-IsEnded :
      (c : Config F) (passes : List (Pass F)) (s : Impl F) (b : F) (a : SendResult)
      → IsClear c s
      → (run_loop passes s b a).1 ≡ true
      → IsEnded (run_loop passes s b a).0
  unfolding run_loop
  run_loop-IsEnded c [] s b a w = λ e. ground arith
  run_loop-IsEnded c (p ∷ passes) s b a w =
      go (pass s b p) (pass-Left c s b p w) (λ s' b' w'. run_loop-IsEnded c passes s' b' a w')
    where
      go :
          (next : WorkerNext F)
          → Left c next
          → ((s' : Impl F) (b' : F)
              → IsClear c s'
              → (run_loop passes s' b' a).1 ≡ true
              → IsEnded (run_loop passes s' b' a).0)
          → (let x = elim next as (λ _. Impl F × Bool) [
            | next_session s' b' ↦ run_loop passes s' b' a
            | leaves s' ↦ (finish_session s' a, true)
            | breaks s' x ↦ (finish_session (recover s' x) a, true)
            | waits s' ↦ (s', false)
          ] in
              x.1 ≡ true → IsEnded x.0)
      go (next_session s' b') (again w') rest e = rest s' b' w' e
      go (leaves s') (left w') rest e = finish_session-IsEnded c s' a w'
      go (breaks s' x) (broken w') rest e = finish_session-IsEnded c _ a (recover-Settled c s' x w')
      go (waits s') waiting rest e = ground arith

  -- When a worker that began with no fault latched has ended, it is marked as exited, no session is open
  -- and no socket is left; and it ends either stopped, with no fault latched, or faulted, with the latched
  -- code in the snapshot. So every way out of the loop, exceptions included, is one of the two.
  pub run-IsEnded :
      (s : Impl F) (passes : List (Pass F)) (a : SendResult)
      → s.fault_latch ≡ FaultCode.none
      → (run s passes a).1 ≡ true
      → IsEnded (run s passes a).0
  unfolding run
  run-IsEnded s passes a e =
      run_loop-IsEnded s.config passes s _ a (record { latch_eq = e; config_eq = refl })

  after_session_fail_stop :
      (v : Impl F) (o : SessionOutcome) (b : F) (p : Pass F)
      → v.config.recovery_policy ≡ fail_stop
      → is_stopped o.result ≡ false
      → after_session v o b p ≡ leaves (set_fault v (fault_for o.result) (message_of o))
  unfolding after_session
  after_session_fail_stop v o b p f n = ground (arith, f, n)

  set_fault-published :
      (c : Config F) (v : Impl F) (code : FaultCode) (message : String)
      → IsClear c v
      → ((set_fault v code message).fault_latch ≡ code)
        × ((set_fault v code message).health.last_error ≡ message)
  unfolding set_fault publish
  set_fault-published c v code message w = ground (arith, w.latch_eq)

  finish_session-kept :
      (v : Impl F) (a : SendResult)
      → ((finish_session v a).fault_latch ≡ v.fault_latch)
        × ((finish_session v a).health.last_error ≡ v.health.last_error)
  unfolding finish_session close_session Transport.close end_stream
  finish_session-kept v a = ground arith

  pass_onward :
      (s : Impl F) (x y : WorkerNext F)
      → s.stopping ≡ false
      → s.fault_latch ≡ FaultCode.none
      → (if s.stopping || is_faulted s.fault_latch then x else y) ≡ y
  pass_onward s x y e f = ground (arith, e, f)

  -- One pass whose session ends with a result other than a stop.
  pass_fail_stop :
      (s : Impl F) (b : F) (p : Pass F) (u : Impl F) (o : SessionOutcome)
      → IsClear s.config s
      → s.config.recovery_policy ≡ fail_stop
      → (interlude s p.before).stopping ≡ false
      → receive_session (interlude s p.before) p.start p.rounds ≡ (u, finished o)
      → is_stopped o.result ≡ false
      → let v = close_session (interlude u p.before_closing) p.close_sent in
        IsClear s.config v × (pass s b p ≡ leaves (set_fault v (fault_for o.result) (message_of o)))
  unfolding pass
  pass_fail_stop s b p u o w f g h n =
      let s' = interlude s p.before in
      let w' = Keeps-IsClear s s' (interlude-Keeps s p.before) w in
      let wu : IsClear s.config u =
        subst (λ (x : Impl F × SessionEnd). IsClear s.config x.0) h
          (receive_session-invariant (IsClear-session s.config) p.start p.rounds 0 s' tt w') in
      let v = close_session (interlude u p.before_closing) p.close_sent in
      let wv =
        Keeps-IsClear _ v (close_session-Keeps _ p.close_sent)
          (Keeps-IsClear u _ (interlude-Keeps u p.before_closing) wu) in
      (
        wv,
        pass_onward s' _ _ g w'.latch_eq
            ∙ ap (after_end p b) h
            ∙ after_session_fail_stop v o b p
                (ap (λ (c : Config F). c.recovery_policy) wv.config_eq ∙ f) n,
      )

  -- Under `FailStop`, with no fault latched, a session that begins with no stop asked for and ends with
  -- anything but a stop ends the worker too: the thread ends, whatever passes would follow, and it
  -- latches the fault of that result, with its message as the last error.
  pub run_fail_stop :
      (s : Impl F) (p : Pass F) (passes : List (Pass F)) (a : SendResult) (u : Impl F)
      (o : SessionOutcome)
      → s.fault_latch ≡ FaultCode.none
      → s.config.recovery_policy ≡ fail_stop
      → (interlude s p.before).stopping ≡ false
      → receive_session (interlude s p.before) p.start p.rounds ≡ (u, finished o)
      → is_stopped o.result ≡ false
      → ((run s (p ∷ passes) a).1 ≡ true)
        × ((run s (p ∷ passes) a).0.fault_latch ≡ fault_for o.result)
        × ((run s (p ∷ passes) a).0.health.last_error ≡ message_of o)
  unfolding run run_loop
  run_fail_stop s p passes a u o e f g h n =
      let (w, q) =
        pass_fail_stop s s.config.reconnect_initial_delay p u o
          (record { latch_eq = e; config_eq = refl }) f g h n in
      let v = close_session (interlude u p.before_closing) p.close_sent in
      let (code_eq, message_eq) =
        set_fault-published s.config v (fault_for o.result) (message_of o) w in
      let (kept, kept') = finish_session-kept (set_fault v (fault_for o.result) (message_of o)) a in
      subst
        (λ (next : WorkerNext F).
          let x = elim next as (λ _. Impl F × Bool) [
            | next_session s' b' ↦ run_loop passes s' b' a
            | leaves s' ↦ (finish_session s' a, true)
            | breaks s' y ↦ (finish_session (recover s' y) a, true)
            | waits s' ↦ (s', false)
          ] in
          (x.1 ≡ true)
          × (x.0.fault_latch ≡ fault_for o.result)
          × (x.0.health.last_error ≡ message_of o))
        (sym q) (refl, kept ∙ code_eq, kept' ∙ message_eq)
