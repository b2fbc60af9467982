-- ===== src/Client/Worker.antt =====
-- `run`, `set_fault` and `finish_session` of core/src/detail/client_impl.cpp: the worker thread, session
-- after session, with the delay between them.
use py_net_ft.Common.{
  ℕ, String, Bool, true, false, ◌&&◌, ◌||◌, not, Option, none, some, List, [], ◌∷◌, if◌then◌else◌,
  inc64, is_empty,
}
use py_net_ft.Exception.{Exception, Result, ok, throws, what}
use py_net_ft.Double.{Double}
use py_net_ft.Time.{checked_deadline}
use py_net_ft.Types.{FaultCode, RecoveryPolicy, HealthSnapshot, Config, fail_stop}
use py_net_ft.Types
use py_net_ft.FaultLatch.{publish, is_faulted}
use py_net_ft.Transport.{SendResult}
use py_net_ft.Client.State.{Impl, SessionResult, SessionOutcome, stopped, fault_for, message_for}
use py_net_ft.Client.Command.{Call, interlude, close_session, set_state}
use py_net_ft.Client.Accounting.{tolerates}
use py_net_ft.Client.Session.{Start, Round, SessionEnd, finished, broke, running, receive_session}

-- What the environment does in one pass of the loop of `run`.
pub record Pass (F : Type 0) : Type 0 where
  pub before : List Call
  pub start : Start F
  pub rounds : List Round
  pub before_closing : List Call
  pub close_sent : SendResult
  -- the clock when the delay begins, and the calls up to its end
  pub delayed_at : ℕ
  pub while_delayed : List Call

-- Where the worker stands: its loop has ended, by `break` or by its test; it has left the loop by an
-- exception; it is to go on with a delay; or it waits for more events.
pub data WorkerNext (F : Type 0) : Type 0 where
  next_session : Impl F → (backoff : F) → WorkerNext F
  leaves : Impl F → WorkerNext F
  breaks : Impl F → Exception → WorkerNext F
  waits : Impl F → WorkerNext F

abbrev pub is_stopped : SessionResult → Bool
is_stopped stopped = true
is_stopped _ = false

-- The text of an exception in the handlers around the loop.
abbrev pub text_of : Option String → String
text_of (some message) = message
text_of none = "unknown client failure"

-- The message of an outcome that has none is that of its result.
abbrev pub message_of : SessionOutcome → String
message_of o = if is_empty o.message then message_for o.result else o.message

module _ {F : Type 0} where
  unfoldable pub set_fault : Impl F → FaultCode → String → Impl F
  set_fault s code message =
      let p = publish s.fault_latch code message s.health in
      record s { fault_latch = p.latch; health = p.health }

  unfoldable pub recover : Impl F → Exception → Impl F
  recover s e = if s.stopping then s else set_fault s FaultCode.socket (text_of (what e))

  unfoldable pub finish_session : Impl F → SendResult → Impl F
  finish_session s sent =
      let closed = close_session s sent in
      let exited : Impl F = record closed { worker_exited = true } in
      if is_faulted exited.fault_latch then exited else set_state Types.stopped exited

module _ {F : Type 0} ⦃d : Double F⦄ where
  open d use {lt, mul, of_nat}

  -- `std::min(backoff * 2.0, config_.reconnect_max_delay)`.
  unfoldable pub next_backoff : F → F → F
  next_backoff backoff maximum =
      let doubled = mul backoff (of_nat 2) in if lt maximum doubled then maximum else doubled

  abbrev pub delayed : Impl F → F → Pass F → Result ℕ → WorkerNext F
  delayed s backoff p (throws e) = breaks s e
  delayed s backoff p (ok deadline) =
      next_session (interlude s p.while_delayed) (next_backoff backoff s.config.reconnect_max_delay)

  abbrev pub back_off : Impl F → String → Impl F
  back_off s message = record s {
    health = record s.health {
      last_error = message;
      state = Types.backoff;
      reconnect_count = inc64 s.health.reconnect_count;
    };
  }

  -- After a session that has ended with an outcome, and been closed.
  unfoldable pub after_session : Impl F → SessionOutcome → F → Pass F → WorkerNext F
  after_session s o backoff p =
      let message = message_of o in
      let base = if o.received_valid_record then s.config.reconnect_initial_delay else backoff in
      if not (is_stopped o.result) && not (tolerates s.config.recovery_policy)
      then leaves (set_fault s (fault_for o.result) message)
      else if is_stopped o.result || s.stopping
      then leaves s
      else delayed (back_off s message) base p (checked_deadline p.delayed_at base)

  abbrev pub after_end : Pass F → F → Impl F × SessionEnd → WorkerNext F
  after_end p backoff (s, finished o) =
      after_session (close_session (interlude s p.before_closing) p.close_sent) o backoff p
  after_end p backoff (s, broke e) = breaks s e
  after_end p backoff (s, running) = waits s

  -- One pass of the loop.
  unfoldable pub pass : Impl F → F → Pass F → WorkerNext F
  pass s backoff p =
      let s' = interlude s p.before in
      if s'.stopping || is_faulted s'.fault_latch
      then leaves s'
      else after_end p backoff (receive_session s' p.start p.rounds)

  -- `run` over a list of passes; `true` once the thread has ended. `finish_sent` answers the send of the
  -- last `close_session`.
  unfoldable pub run_loop : List (Pass F) → Impl F → F → SendResult → Impl F × Bool
  run_loop [] s backoff finish_sent = (s, false)
  run_loop (p ∷ passes) s backoff finish_sent = elim (pass s backoff p) [
    | next_session s' backoff' ↦ run_loop passes s' backoff' finish_sent
    | leaves s' ↦ (finish_session s' finish_sent, true)
    | breaks s' e ↦ (finish_session (recover s' e) finish_sent, true)
    | waits s' ↦ (s', false)
  ]

  unfoldable pub run : Impl F → List (Pass F) → SendResult → Impl F × Bool
  run s passes finish_sent = run_loop passes s s.config.reconnect_initial_delay finish_sent
