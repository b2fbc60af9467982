-- ===== src/Client/Command.antt =====
-- What other threads, or the callback, do to the client while its worker runs: `bias`, `health`, the locked
-- part of `stop`; and the worker's `close_session`. Core/src/detail/client_impl.cpp.
use py_net_ft.Common.{
  ℕ, Bool, true, false, ◌&&◌, ◌||◌, not, none, some, List, [], ◌∷◌, ◌==◌, ◌-◌, if◌then◌else◌,
  length,
}
use py_net_ft.Exception.{Result, ok, throws, not_connected_error}
use py_net_ft.Protocol.{encode_request, stop_streaming, start_realtime, set_software_bias}
use py_net_ft.Sequence.{rdt_reset}
use py_net_ft.Types.{ClientState, HealthSnapshot, streaming}
use py_net_ft.Types
use py_net_ft.FaultLatch.{is_faulted}
use py_net_ft.Transport.{Transport, SendResult, send, shutdown, close}
use py_net_ft.Client.State.{Impl, prune_rate_window}

-- `transport_.send` in a `try` whose handler does nothing.
abbrev send_quietly : Transport → Result Transport → Transport
send_quietly t (ok t') = t'
send_quietly t (throws e) = t

abbrev pub is_streaming : ClientState → Bool
is_streaming streaming = true
is_streaming _ = false

pub data StopStep : Type 0 where
  -- `stop` returns
  returned : StopStep
  -- it waits for another thread's join, and then begins again
  blocked : StopStep
  -- it joins this thread, with no lock held
  joins : ℕ → StopStep

module _ {F : Type 0} where
  abbrev pub set_state : ClientState → Impl F → Impl F
  set_state state s = record s { health = record s.health { state = state } }

  -- A started session is ended by one request, whether or not it can be sent.
  unfoldable pub end_stream : Impl F → SendResult → Impl F
  end_stream s result =
      if s.session_started
      then record s {
        transport =
            send_quietly s.transport (send s.transport (encode_request stop_streaming 0) result);
        session_started = false;
      }
      else s

  unfoldable pub close_session : Impl F → SendResult → Impl F
  close_session s result =
      let ended = end_stream s result in record ended { transport = close ended.transport }

  -- `stop` up to the release of the lifecycle lock, on the thread `self`.
  unfoldable pub stop_locked : Impl F → ℕ → SendResult → Impl F × StopStep
  stop_locked s self result =
      let ended = end_stream (record s { stopping = true }) result in
      let asked : Impl F = record ended { transport = shutdown ended.transport } in
      if not asked.worker_exited && asked.active_worker_id == self
      then (asked, returned)
      else if asked.joining
      then (asked, blocked)
      else elim asked.worker [
        | none ↦ (
          if is_faulted asked.fault_latch then asked else set_state Types.stopped asked,
          returned,
        )
        | some w ↦ (record asked { joining = true; worker = none }, joins w)
      ]

  -- The rest of `stop`, after the join.
  unfoldable pub stop_joined : Impl F → Impl F
  stop_joined s =
      let shown = if is_faulted s.fault_latch then s else set_state Types.stopped s in
      record shown { active_worker_id = 0; joining = false }

  abbrev second_send : Impl F → Result Transport → Impl F × Result (Unit {0})
  second_send s (throws e) = (s, throws e)
  second_send s (ok t) =
      (record s { transport = t; rdt_sequence = rdt_reset s.rdt_sequence }, ok tt)

  abbrev first_send : Impl F → SendResult → Result Transport → Impl F × Result (Unit {0})
  first_send s result (throws e) = (s, throws e)
  first_send s result (ok t) =
      second_send (record s { transport = t }) (send t (encode_request start_realtime 0) result)

  unfoldable pub bias : Impl F → SendResult → SendResult → Impl F × Result (Unit {0})
  bias s first second =
      if s.stopping
        || not s.session_started
        || is_faulted s.fault_latch
        || not (is_streaming s.health.state)
      then (s, throws (not_connected_error "client is not streaming"))
      else first_send s second (send s.transport (encode_request set_software_bias 0) first)

  -- `health`, at a time of the clock. The two windows are pruned in place.
  unfoldable pub health : Impl F → ℕ → Impl F × HealthSnapshot F
  health s now =
      let received = prune_rate_window s.receive_times now in
      let delivered = prune_rate_window s.delivery_times now in
      (
        record s { receive_times = received; delivery_times = delivered },
        record s.health {
          fault_code = s.fault_latch;
          state = if is_faulted s.fault_latch then Types.faulted else s.health.state;
          receive_rate_hz = length received;
          delivery_rate_hz = length delivered;
          last_record_age =
              if s.last_record_at == 0
              then s.health.last_record_age
              else some (now - s.last_record_at);
        },
      )

-- A call that another thread, or the callback, makes while the worker holds no lock.
pub data Call : Type 0 where
  biases : SendResult → SendResult → Call
  reads_health : ℕ → Call
  stops : ℕ → SendResult → Call

module _ {F : Type 0} where
  unfoldable pub call : Impl F → Call → Impl F
  call s (biases first second) = (bias s first second).0
  call s (reads_health now) = (health s now).0
  call s (stops self result) = (stop_locked s self result).0

  unfoldable pub interlude : Impl F → List Call → Impl F
  interlude s [] = s
  interlude s (c ∷ calls) = interlude (call s c) calls
