-- ===== src/Client/Session.antt =====
-- `configuration_for_session` and `receive_session` of core/src/detail/client_impl.cpp. A session is driven
-- by what its environment does: a `Start`, and a `Round` for each pass of its loop, with the calls that
-- other threads make in between.
use py_net_ft.Common.{
  ℕ, String, ◌-◌, Bool, true, false, Option, none, some, List, [], ◌∷◌, leb, if◌then◌else◌, inc64,
  length, is_nil,
}
use py_net_ft.Exception.{Exception, Result, ok, throws, discovery_error, what}
use py_net_ft.Double.{Double}
use py_net_ft.Time.{checked_deadline, seconds_of}
use py_net_ft.Protocol.{
  RawRecord, Decoded, decoded, refused, decode_record, encode_request, start_realtime,
}
use py_net_ft.Sequence.{rdt_reset, begin_session}
use py_net_ft.Types.{SensorConfiguration, Config, connecting, override}
use py_net_ft.Transport.{
  Transport, Resolution, SendResult, Poll, RecvResult, Received, received, raised, pending, connect,
  send, receive,
}
use py_net_ft.Client.State.{
  Impl, SessionResult, SessionOutcome, apply_configuration, malformed_storm_threshold, stopped,
  sensor_configuration, timeout, socket, malformed_storm,
}
use py_net_ft.Client.Command.{Call, interlude}
use py_net_ft.Client.Record.{CallbackResult, handle_record}

pub record Start (F : Type 0) : Type 0 where
  pub while_discovering : List Call
  -- what `discover_sensor` returns or throws
  pub discovery : Result (SensorConfiguration F)
  pub while_connecting : List Call
  pub resolution : Resolution
  pub before_sending : List Call
  pub start_sent : SendResult
  pub started_at : ℕ

pub record Round : Type 0 where
  pub before : List Call
  pub now : ℕ
  pub receive_at : ℕ
  pub while_receiving : List Call
  pub polls : List (ℕ → Poll)
  pub recv : RecvResult
  -- between the test of `stopping_` and the locks that are taken after it
  pub late : List Call
  pub received_at : ℕ
  pub in_callback : List Call
  pub callback_result : CallbackResult

pub data SessionEnd : Type 0 where
  finished : SessionOutcome → SessionEnd
  broke : Exception → SessionEnd
  -- the session waits for more than the listed rounds
  running : SessionEnd

pub data Next (F : Type 0) : Type 0 where
  goes_on : Impl F → (deadline : ℕ) → (received_valid_record : Bool) → Next F
  ends : Impl F → SessionEnd → Next F

abbrev pub outcome : SessionResult → String → Bool → SessionEnd
outcome result message valid =
    finished (record { result = result; message = message; received_valid_record = valid })

-- `stopping_ ? SessionResult::Stopped : result`.
abbrev pub unless_stopping : Bool → SessionResult → SessionResult
unless_stopping stopping result = if stopping then stopped else result

-- A handler of `std::exception`: anything else goes on.
abbrev pub caught : Bool → SessionResult → Exception → Bool → SessionEnd
caught stopping result e valid = elim (what e) [
  | some message ↦ outcome (unless_stopping stopping result) message valid
  | none ↦ broke e
]

-- The handler of `DiscoveryError`.
abbrev pub caught_discovery : Bool → Exception → SessionEnd
caught_discovery stopping (discovery_error message) =
    outcome (unless_stopping stopping sensor_configuration) message false
caught_discovery stopping e = broke e

module _ {F : Type 0} where
  -- An override is used as it is, and nothing is asked of the sensor.
  unfoldable pub configuration_for_session :
      Config F → Result (SensorConfiguration F) → Result (SensorConfiguration F)
  configuration_for_session c discovery = elim c.calibration_override [
    | some calibration ↦
        ok
          (record { product_name = ""; calibration = calibration; source = override; revision = 1 })
    | none ↦ discovery
  ]

  abbrev pub count_timeout : Impl F → Impl F
  count_timeout s = record s {
    health = record s.health { timeout_count = inc64 s.health.timeout_count };
  }

  -- Time has run out, or the receive came back with nothing.
  unfoldable pub time_out : Impl F → Bool → Next F
  time_out s valid =
      if s.stopping
      then ends s (outcome stopped "" valid)
      else ends (count_timeout s) (outcome timeout "" valid)

  abbrev pub mark_malformed : Impl F → Impl F
  mark_malformed s = record s {
    consecutive_malformed = inc64 s.consecutive_malformed;
    health = record s.health { malformed_count = inc64 s.health.malformed_count };
  }

  unfoldable pub count_malformed : Impl F → ℕ → Bool → Next F
  count_malformed s deadline valid =
      let s' = mark_malformed s in
      if leb malformed_storm_threshold s'.consecutive_malformed
      then ends s' (outcome malformed_storm "" valid)
      else goes_on s' deadline valid

  abbrev pub after_record : Impl F × Result (Option SessionResult) → ℕ → Next F
  after_record (s, throws e) deadline = ends s (broke e)
  after_record (s, ok (some result)) deadline = ends s (outcome result "" true)
  after_record (s, ok none) deadline = goes_on s deadline true

module _ {F : Type 0} ⦃d : Double F⦄ where
  abbrev pub timed_record : Impl F → RawRecord → Round → Result ℕ → Next F
  timed_record s record' r (throws e) = ends s (broke e)
  timed_record s record' r (ok deadline) =
      after_record (handle_record s record' r.received_at r.in_callback r.callback_result) deadline

  abbrev pub handle_decoded : Impl F → ℕ → Bool → Round → Decoded → Next F
  handle_decoded s deadline valid r (refused e) = count_malformed s deadline valid
  handle_decoded s deadline valid r (decoded raw) =
      timed_record (record s { consecutive_malformed = 0 }) raw r
        (checked_deadline r.received_at s.config.receive_timeout)

  -- A datagram, or none, has come back from the transport.
  unfoldable pub handle_bytes : Impl F → ℕ → Bool → Round → List ℕ → Next F
  handle_bytes s deadline valid r bytes =
      if s.stopping
      then ends s (outcome stopped "" valid)
      else (let s' = interlude s r.late in
          if is_nil bytes
          then time_out s' valid
          else handle_decoded s' deadline valid r (decode_record (some bytes) (length bytes)))

  abbrev pub handle_received : Impl F → ℕ → Bool → Round → Received → Next F
  handle_received s deadline valid r (raised e) = ends s (caught s.stopping socket e valid)
  handle_received s deadline valid r pending = ends s running
  handle_received s deadline valid r (received bytes) = handle_bytes s deadline valid r bytes

  -- One pass of the loop.
  unfoldable pub round : Impl F → ℕ → Bool → Round → Next F
  round s deadline valid r =
      let s1 = interlude s r.before in
      let s2 = interlude s1 r.while_receiving in
      if s1.stopping
      then ends s1 (outcome stopped "" valid)
      else if leb deadline r.now
      then time_out (interlude s1 r.late) valid
      else handle_received s2 deadline valid r (
          receive {F = F} s1.transport s2.transport r.receive_at (seconds_of (deadline - r.now))
            r.polls r.recv)

  unfoldable pub receive_loop : List Round → Impl F → ℕ → Bool → Impl F × SessionEnd
  receive_loop [] s deadline valid = (s, running)
  receive_loop (r ∷ rounds) s deadline valid = elim (round s deadline valid r) [
    | goes_on s' deadline' valid' ↦ receive_loop rounds s' deadline' valid'
    | ends s' e ↦ (s', e)
  ]

  abbrev pub streaming_from : List Round → Impl F → Result ℕ → Impl F × SessionEnd
  streaming_from rounds s (throws e) = (s, broke e)
  streaming_from rounds s (ok deadline) = receive_loop rounds s deadline false

  abbrev pub reset_trackers : Impl F → Impl F
  reset_trackers s = record s {
    rdt_sequence = rdt_reset s.rdt_sequence;
    ft_sequence = begin_session s.ft_sequence;
  }

  -- The sequence trackers are reset, and the loop begins.
  abbrev pub started : Impl F → ℕ → List Round → Impl F × SessionEnd
  started s started_at rounds =
      streaming_from rounds (reset_trackers s)
        (checked_deadline started_at s.config.receive_timeout)

  abbrev pub after_start_sent : Impl F → ℕ → List Round → Result Transport → Impl F × SessionEnd
  after_start_sent s started_at rounds (throws e) = (s, caught s.stopping socket e false)
  after_start_sent s started_at rounds (ok t) =
      started (record s { transport = t; session_started = true }) started_at rounds

  unfoldable pub begin_stream : Impl F → SendResult → ℕ → List Round → Impl F × SessionEnd
  begin_stream s sent started_at rounds =
      if s.stopping
      then (s, outcome stopped "" false)
      else after_start_sent s started_at rounds
          (send s.transport (encode_request start_realtime 0) sent)

  abbrev pub after_connect : Start F → List Round → Impl F → Result Transport → Impl F × SessionEnd
  after_connect start rounds s (throws e) = (s, caught s.stopping socket e false)
  after_connect start rounds s (ok t) =
      begin_stream (interlude (record s { transport = t }) start.before_sending) start.start_sent
        start.started_at rounds

  unfoldable pub open_stream : Impl F → Start F → List Round → Impl F × SessionEnd
  open_stream s start rounds =
      let s' = interlude s start.while_connecting in
      if s.stopping
      then (s, outcome stopped "" false)
      else after_connect start rounds s' (connect s'.transport start.resolution)

  abbrev pub after_discovery :
      Start F → List Round → Impl F → Result (SensorConfiguration F) → Impl F × SessionEnd
  after_discovery start rounds s (throws e) = (s, caught_discovery s.stopping e)
  after_discovery start rounds s (ok c) = open_stream (apply_configuration s c) start rounds

  unfoldable pub receive_session : Impl F → Start F → List Round → Impl F × SessionEnd
  receive_session s start rounds =
      let s1 : Impl F = record s { health = record s.health { state = connecting } } in
      let s2 = interlude s1 start.while_discovering in
      if s1.stopping
      then (s1, outcome stopped "" false)
      else after_discovery start rounds s2 (configuration_for_session s2.config start.discovery)
