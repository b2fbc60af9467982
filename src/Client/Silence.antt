-- ===== src/Client/Silence.antt =====
-- What the worker and the calls of other threads send once the locked part of `stop` of
-- core/src/detail/client_impl.cpp has run.
use py_net_ft.Common.{
  String, Bool, Option, none, some, refl, sym, ap, subst, ℕ, ◌≡◌, ◌∙◌, true, false, List, [], ◌∷◌,
  arith,
}
use py_net_ft.Exception.{Result, ok_inj, ok, throws}
use py_net_ft.Types.{SensorConfiguration}
use py_net_ft.Transport.{
  attach, connect, connect_any, socket_error, Resolution, unresolved, addresses, SendResult,
  Transport, close, shutdown,
}
use py_net_ft.Client.State.{Impl, apply_configuration, stopped}
use py_net_ft.Double.{Double}
use py_net_ft.Client.Session.{
  Start, Round, Next, goes_on, ends, SessionEnd, outcome, round, receive_loop, begin_stream,
  after_connect, open_stream, after_discovery, receive_session,
}
use py_net_ft.Client.Worker.{
  Pass, WorkerNext, next_session, leaves, breaks, waits, pass, run_loop, run, recover,
  finish_session,
}
use py_net_ft.Client.Command.{
  Call, biases, reads_health, stops, call, interlude, bias, health, stop_locked, end_stream,
  close_session,
}

attach-sent : (t u : Transport) (p : Option ℕ × String) → attach t p ≡ ok u → u.sent ≡ t.sent
unfolding socket_error
attach-sent t u (none, error) e = ground arith
attach-sent t u (some fd, error) e = ap (λ (v : Transport). v.sent) (sym (ok_inj _ u e))

connect-sent : (t u : Transport) (r : Resolution) → connect t r ≡ ok u → u.sent ≡ t.sent
unfolding connect
connect-sent t u (unresolved reason) e = ground arith
connect-sent t u (addresses text attempts) e = attach-sent t u (connect_any attempts text) e

module _ {F : Type 0} where
  -- A stop has been asked for, and the request that ends the session has been made.
  pub record IsSilent (sent : List (List ℕ)) (s : Impl F) : Type 0 where
    pub stopping_eq : s.stopping ≡ true
    pub no_session : s.session_started ≡ false
    pub sent_eq : s.transport.sent ≡ sent

  pub stop_locked-IsSilent :
      (s : Impl F) (self : ℕ) (a : SendResult)
      → IsSilent (stop_locked s self a).0.transport.sent (stop_locked s self a).0
  unfolding stop_locked end_stream shutdown
  stop_locked-IsSilent s self a = ground arith

  call-IsSilent :
      (sent : List (List ℕ)) (s : Impl F) (c : Call) → IsSilent sent s → IsSilent sent (call s c)
  unfolding call bias health stop_locked end_stream shutdown
  call-IsSilent sent s (biases a b) w = ground (arith, w.stopping_eq, w.no_session, w.sent_eq)
  call-IsSilent sent s (reads_health now) w = ground (arith, w.stopping_eq, w.no_session, w.sent_eq)
  call-IsSilent sent s (stops self a) w = ground (arith, w.stopping_eq, w.no_session, w.sent_eq)

  pub interlude-IsSilent :
      (sent : List (List ℕ)) (s : Impl F) (calls : List Call)
      → IsSilent sent s
      → IsSilent sent (interlude s calls)
  unfolding interlude
  interlude-IsSilent sent s [] w = w
  interlude-IsSilent sent s (c ∷ calls) w =
      interlude-IsSilent sent (call s c) calls (call-IsSilent sent s c w)

  close_session-sent :
      (s : Impl F) (a : SendResult)
      → s.session_started ≡ false
      → (close_session s a).transport.sent ≡ s.transport.sent
  unfolding close_session end_stream close
  close_session-sent s a e = ground (arith, e)

module _ {F : Type 0} ⦃d : Double F⦄ where
  pub begin_stream-IsSilent :
      (sent : List (List ℕ)) (s : Impl F) (c : SendResult) (at : ℕ) (rounds : List Round)
      → IsSilent sent s
      → IsSilent sent (begin_stream s c at rounds).0
  unfolding begin_stream
  begin_stream-IsSilent sent s c at rounds w =
      ground (arith, w.stopping_eq, w.no_session, w.sent_eq)

  pub after_connect-IsSilent :
      (sent : List (List ℕ)) (start : Start F) (rounds : List Round) (s : Impl F)
      → IsSilent sent s
      → IsSilent sent (after_connect start rounds s (connect s.transport start.resolution)).0
  after_connect-IsSilent sent start rounds s w = go (connect s.transport start.resolution) refl
    where
      go :
          (r : Result Transport)
          → connect s.transport start.resolution ≡ r
          → IsSilent sent (after_connect start rounds s r).0
      go (throws x) e = w
      go (ok u) e = begin_stream-IsSilent sent _ start.start_sent start.started_at rounds (
          interlude-IsSilent sent (record s { transport = u }) start.before_sending
            (record {
              stopping_eq = w.stopping_eq;
              no_session = w.no_session;
              sent_eq = connect-sent s.transport u start.resolution e ∙ w.sent_eq;
            }))

  pub after_discovery-IsSilent :
      (sent : List (List ℕ)) (start : Start F) (rounds : List Round) (s : Impl F)
      (found : Result (SensorConfiguration F))
      → IsSilent sent s
      → IsSilent sent (after_discovery start rounds s found).0
  unfolding open_stream apply_configuration
  after_discovery-IsSilent sent start rounds s (ok c) w =
      ground (arith, w.stopping_eq, w.no_session, w.sent_eq)
  after_discovery-IsSilent sent start rounds s (throws e) w =
      ground (arith, w.stopping_eq, w.no_session, w.sent_eq)

  pub receive_session-IsSilent :
      (sent : List (List ℕ)) (s : Impl F) (start : Start F) (rounds : List Round)
      → IsSilent sent s
      → IsSilent sent (receive_session s start rounds).0
  unfolding receive_session
  receive_session-IsSilent sent s start rounds w =
      ground (arith, w.stopping_eq, w.no_session, w.sent_eq)

  round-IsSilent :
      (sent : List (List ℕ)) (s : Impl F) (deadline : ℕ) (valid : Bool) (r : Round)
      → IsSilent sent s
      → round s deadline valid r ≡ ends (interlude s r.before) (outcome stopped "" valid)
  unfolding round
  round-IsSilent sent s deadline valid r w =
      let v = interlude-IsSilent sent s r.before w in ground (arith, v.stopping_eq)

  pub receive_loop-IsSilent :
      (sent : List (List ℕ)) (rounds : List Round) (s : Impl F) (deadline : ℕ) (valid : Bool)
      → IsSilent sent s
      → IsSilent sent (receive_loop rounds s deadline valid).0
  unfolding receive_loop
  receive_loop-IsSilent sent [] s deadline valid w = w
  receive_loop-IsSilent sent (r ∷ rounds) s deadline valid w =
      subst
        (λ (next : Next F).
          IsSilent sent
            (elim next as (λ _. Impl F × SessionEnd) [
              | goes_on s' deadline' valid' ↦ receive_loop rounds s' deadline' valid'
              | ends s' e ↦ (s', e)
            ]).0)
        (sym (round-IsSilent sent s deadline valid r w)) (interlude-IsSilent sent s r.before w)

  pass-leaves :
      (sent : List (List ℕ)) (s : Impl F) (backoff : F) (p : Pass F)
      → IsSilent sent s
      → pass s backoff p ≡ leaves (interlude s p.before)
  unfolding pass
  pass-leaves sent s backoff p w =
      let v = interlude-IsSilent sent s p.before w in ground (arith, v.stopping_eq)

  finish_session-sent :
      (s : Impl F) (b : SendResult)
      → s.session_started ≡ false
      → (finish_session s b).transport.sent ≡ s.transport.sent
  unfolding finish_session
  finish_session-sent s b e = ground (arith, close_session-sent s b e)

  pub run-sent :
      (sent : List (List ℕ)) (s : Impl F) (passes : List (Pass F)) (b : SendResult)
      → IsSilent sent s
      → (run s passes b).0.transport.sent ≡ sent
  unfolding run run_loop
  run-sent sent s [] b w = w.sent_eq
  run-sent sent s (p ∷ passes) b w =
      let v = interlude-IsSilent sent s p.before w in
      subst
        (λ (next : WorkerNext F).
          (elim next as (λ _. Impl F × Bool) [
            | next_session s' backoff' ↦ run_loop passes s' backoff' b
            | leaves s' ↦ (finish_session s' b, true)
            | breaks s' e ↦ (finish_session (recover s' e) b, true)
            | waits s' ↦ (s', false)
          ]).0.transport.sent
          ≡ sent)
        (sym (pass-leaves sent s s.config.reconnect_initial_delay p w))
        (finish_session-sent (interlude s p.before) b v.no_session ∙ v.sent_eq)

  -- What the sensor has been sent when the worker has closed its session.
  abbrev pub sent_after : Impl F × SessionEnd → SendResult → List (List ℕ)
  sent_after (s, e) b = (close_session s b).transport.sent

  pub closed-sent :
      (sent : List (List ℕ)) (x : Impl F × SessionEnd) (b : SendResult)
      → IsSilent sent x.0
      → sent_after x b ≡ sent
  closed-sent sent (s, e) b w = close_session-sent s b w.no_session ∙ w.sent_eq
