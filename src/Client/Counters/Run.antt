-- ===== src/Client/Counters/Run.antt =====
-- The agreement of the counters over a whole run of the worker of core/src/detail/client_impl.cpp.
use py_net_ft.Common.{ℕ, String, ◌+◌, ◌^◌, ◌<◌, ap, List, arith, Option, none, some, if_both}
use py_net_ft.Double.{Double}
use py_net_ft.Types.{HealthSnapshot, SensorConfiguration, FaultCode}
use py_net_ft.FaultLatch.{publish}
use py_net_ft.Transport.{SendResult}
use py_net_ft.Client.State.{Impl, apply_configuration, configure_health, same_calibration}
use py_net_ft.Client.Command.{close_session, end_stream}
use py_net_ft.Client.Frame.{Keeps, interlude-Keeps, end_stream-Keeps}
use py_net_ft.Client.Worker.{Pass, set_fault, finish_session, run}
use py_net_ft.Client.Invariant.{AnyAnswer, IsSessionInvariant}
use py_net_ft.Client.Invariant.Run.{IsRunInvariant, any_answers, run_budget, run-invariant}
use py_net_ft.Client.Counters.{IsCounted, handle_record-IsCounted}

module _ {F : Type 0} where
  -- The counters agree, and `n` records more do not wrap the count of those received.
  record CountedFor (n : ℕ) (s : Impl F) : Type 0 where
    counted : IsCounted s.health
    fits : s.health.received_count + n < 2 ^ 64

  Keeps-CountedFor : (n : ℕ) (s t : Impl F) → Keeps s t → CountedFor n s → CountedFor n t
  Keeps-CountedFor n s t k w = record {
    counted = rw k.health_eq (omega arith);
    fits = omega (arith, ap (λ (h : HealthSnapshot F). h.received_count) k.health_eq);
  }

  close_session-CountedFor :
      (n : ℕ) (s : Impl F) (a : SendResult) → CountedFor n s → CountedFor n (close_session s a)
  unfolding close_session
  close_session-CountedFor n s a w =
      let w' = Keeps-CountedFor n s (end_stream s a) (end_stream-Keeps s a).0 w in
      record { counted = w'.counted; fits = w'.fits }

  set_fault-CountedFor :
      (n : ℕ) (s : Impl F) (code : FaultCode) (message : String)
      → CountedFor n s
      → CountedFor n (set_fault s code message)
  unfolding set_fault publish
  set_fault-CountedFor n s code message w = ground arith

  finish_session-CountedFor :
      (n : ℕ) (s : Impl F) (a : SendResult) → CountedFor n s → CountedFor n (finish_session s a)
  unfolding finish_session
  finish_session-CountedFor n s a w = let w' = close_session-CountedFor n s a w in ground arith

module _ {F : Type 0} ⦃d : Double F⦄ where
  apply_configuration-CountedFor :
      (n : ℕ) (s : Impl F) (c : SensorConfiguration F)
      → CountedFor n s
      → CountedFor n (apply_configuration s c)
  unfolding apply_configuration configure_health
  apply_configuration-CountedFor n s c w = go s.health.sensor_configuration
    where
      go :
          (o : Option (SensorConfiguration F))
          → CountedFor n (record s { health = configure_health o c s.health })
      go none = record { counted = omega arith; fits = w.fits }
      go (some previous) =
          if_both (λ (h : HealthSnapshot F). CountedFor n (record s { health = h }))
            (same_calibration previous.calibration c.calibration)
            (record { counted = omega arith; fits = w.fits })
            (record { counted = omega arith; fits = w.fits })

  CountedFor-session : IsSessionInvariant {F = F} AnyAnswer CountedFor
  CountedFor-session = record {
    weaken = λ n s w. record { counted = w.counted; fits = omega arith };
    by_calls = λ n s calls. Keeps-CountedFor n s _ (interlude-Keeps s calls);
    by_connecting = λ n s w. record { counted = omega arith; fits = w.fits };
    by_configuration = λ n s answer c k q. apply_configuration-CountedFor n s c;
    by_transport = λ n s t w. record { counted = w.counted; fits = w.fits };
    by_start = λ n s t w. record { counted = w.counted; fits = w.fits };
    by_timeout = λ n s w. record { counted = omega arith; fits = w.fits };
    by_malformed = λ n s w. record { counted = omega arith; fits = w.fits };
    by_record = λ n s r t calls result w.
        let kept =
          handle_record-IsCounted (record s { consecutive_malformed = 0 }) r t calls result
            w.counted (omega (arith, w.fits)) in
        record { counted = kept.0; fits = omega (arith, kept.1, w.fits) };
    by_valid = λ n s w. record { counted = w.counted; fits = w.fits };
  }

  CountedFor-run : IsRunInvariant {F = F} AnyAnswer CountedFor
  CountedFor-run = record {
    session = CountedFor-session;
    by_close = close_session-CountedFor;
    by_backoff = λ n s message w. record { counted = omega arith; fits = w.fits };
    by_fault = set_fault-CountedFor;
    by_finish = finish_session-CountedFor;
  }

  -- If the counters of the snapshot agree, they agree after any run of the worker too, with whatever
  -- sessions, records, failures and calls, as long as the count of the records does not wrap: of those
  -- received, no more were delivered, refused by the callback or held back by the rate limit in all; nor
  -- graded as a warning or an error; nor duplicates or out of order; nor a stall, a step backward or a
  -- restart.
  pub run-IsCounted :
      (s : Impl F) (passes : List (Pass F)) (a : SendResult)
      → IsCounted s.health
      → s.health.received_count + run_budget passes < 2 ^ 64
      → IsCounted (run s passes a).0.health
  run-IsCounted s passes a v h =
      (run-invariant CountedFor-run s passes a (any_answers passes)
        (record { counted = v; fits = h })).counted
