-- ===== src/Client/Control.antt =====
-- Which requests the client sends to the sensor: `bias`, `stop` and the worker of
-- core/src/detail/client_impl.cpp.
use py_net_ft.Common.{Bool, ℕ, ◌≡◌, ◌⊎◌, true, false, not, ◌||◌, List, arith}
use py_net_ft.Exception.{Result, ok, throws, not_connected_error}
use py_net_ft.Protocol.{encode_request, set_software_bias, start_realtime}
use py_net_ft.Sequence.{rdt_reset}
use py_net_ft.Types.{SensorConfiguration, streaming}
use py_net_ft.FaultLatch.{is_faulted}
use py_net_ft.Transport.{connect, SendResult, send, Transport}
use py_net_ft.Client.State.{Impl}
use py_net_ft.Double.{Double}
use py_net_ft.Client.Session.{
  Start, Round, receive_loop, begin_stream, after_connect, after_discovery, receive_session,
}
use py_net_ft.Client.Worker.{Pass, run}
use py_net_ft.Client.Command.{Call, interlude, bias, stop_locked, is_streaming}
use py_net_ft.Client.Silence.{
  IsSilent, stop_locked-IsSilent, interlude-IsSilent, begin_stream-IsSilent, after_connect-IsSilent,
  after_discovery-IsSilent, receive_session-IsSilent, receive_loop-IsSilent, run-sent, closed-sent,
  sent_after,
}

module _ {F : Type 0} where
  -- Where both requests of a `bias` can be sent, one of two things happens. The session streams and is
  -- neither faulted nor asked to stop, and the bias and then a start of the stream are sent, and of the
  -- client's other members only the RDT tracker is reset; or one of these fails, and the bias is refused
  -- as not connected and changes nothing.
  pub bias_iff_streaming :
      (s : Impl F) (t u : Transport) (a b : SendResult)
      → send s.transport (encode_request set_software_bias 0) a ≡ ok t
      → send t (encode_request start_realtime 0) b ≡ ok u
      → (bias s a b ≡ (record s { transport = u; rdt_sequence = rdt_reset s.rdt_sequence }, ok tt)
          × (s.stopping ≡ false)
          × (s.session_started ≡ true)
          × (is_faulted s.fault_latch ≡ false)
          × (s.health.state ≡ streaming))
        ⊎ (bias s a b ≡ (s, throws (not_connected_error "client is not streaming"))
            × (s.stopping
                  || not s.session_started
                  || is_faulted s.fault_latch
                  || not (is_streaming s.health.state)
                ≡ true))
  unfolding bias
  bias_iff_streaming s t u a b p q = ground (arith, p, q)

module _ {F : Type 0} ⦃d : Double F⦄ where
  -- After the locked part of `stop` nothing more is sent to the sensor. The calls that any threads make then,
  -- further stops and biases included, send nothing. Nor does the worker, wherever it goes on from: at the
  -- top of its loop, at the beginning of a session, with the answer of the discovery, with a connection that
  -- it has just asked for, at the point where it would send its own request to start the stream, or in the
  -- loop that receives; and nor does the closing of its session afterwards.
  pub stop_ends_sending :
      (s : Impl F) (self : ℕ) (a : SendResult) (calls : List Call) (b : SendResult)
      (start : Start F) (rounds : List Round) (found : Result (SensorConfiguration F))
      (deadline : ℕ) (valid : Bool) (passes : List (Pass F))
      → let u = interlude (stop_locked s self a).0 calls in
        let sent = (stop_locked s self a).0.transport.sent in
        (u.transport.sent ≡ sent)
        × ((run u passes b).0.transport.sent ≡ sent)
        × (sent_after (receive_session u start rounds) b ≡ sent)
        × (sent_after (after_discovery start rounds u found) b ≡ sent)
        × (sent_after (after_connect start rounds u (connect u.transport start.resolution)) b
            ≡ sent)
        × (sent_after (begin_stream u start.start_sent start.started_at rounds) b ≡ sent)
        × (sent_after (receive_loop rounds u deadline valid) b ≡ sent)
  stop_ends_sending s self a calls b start rounds found deadline valid passes =
      let u = interlude (stop_locked s self a).0 calls in
      let sent = (stop_locked s self a).0.transport.sent in
      let w : IsSilent sent u = interlude-IsSilent _ _ calls (stop_locked-IsSilent s self a) in
      (
        w.sent_eq,
        run-sent sent u passes b w,
        closed-sent sent (receive_session u start rounds) b
            (receive_session-IsSilent sent u start rounds w),
        closed-sent sent (after_discovery start rounds u found) b
            (after_discovery-IsSilent sent start rounds u found w),
        closed-sent sent (after_connect start rounds u (connect u.transport start.resolution)) b
            (after_connect-IsSilent sent start rounds u w),
        closed-sent sent (begin_stream u start.start_sent start.started_at rounds) b
            (begin_stream-IsSilent sent u start.start_sent start.started_at rounds w),
        closed-sent sent (receive_loop rounds u deadline valid) b
            (receive_loop-IsSilent sent rounds u deadline valid w),
      )
