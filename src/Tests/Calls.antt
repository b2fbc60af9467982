-- ===== src/Tests/Calls.antt =====
-- Calls of `start`, `stop` and `bias`.
use py_net_ft.Client.Silence.{sent_after}
use py_net_ft.Client.Worker.{run}
use py_net_ft.Client.Session.{
  receive_session, after_discovery, after_connect, begin_stream, receive_loop,
}
use py_net_ft.Transport.{connect}
use py_net_ft.Tests.{exact, arrival, session, opening, known}
use py_net_ft.Client.Restart.{first_step}
use py_net_ft.Client.Lifecycle.{start_locked}
use py_net_ft.Common.{
  ℕ, ◌≡◌, ◌⊎◌, inr, refl, true, false, not, ◌||◌, none, some, List, [], ◌∷◌, arith,
}
use py_net_ft.Exception.{system_error, ok, throws, not_connected_error}
use py_net_ft.Protocol.{encode_request, set_software_bias, start_realtime}
use py_net_ft.Sequence.{rdt_reset}
use py_net_ft.FaultLatch.{is_faulted}
use py_net_ft.Types.{FaultCode, streaming}
use py_net_ft.Types
use py_net_ft.Transport.{Transport, sent_bytes, send}
use py_net_ft.Client.State.{Impl}
use py_net_ft.Client.Command.{
  biases, stops, reads_health, interlude, stop_locked, bias, Call, is_streaming,
}
use py_net_ft.Client.Lifecycle.{start, refused, started, first_sample_ready}
use py_net_ft.Client.Control.{stop_ends_sending, bias_iff_streaming}
use py_net_ft.Client.Restart.{start_undone, start_after_exit}
use py_net_ft.Tests.{client, live}

abbrev later_calls : List Call
later_calls = biases (sent_bytes 8) (sent_bytes 8) ∷ reads_health 2000 ∷ stops 4 (sent_bytes 8) ∷ []

-- The calls have been made.
abbrev told : Impl ℕ
told = interlude (stop_locked live 9 (sent_bytes 8)).0 later_calls

stop_ends_sending_example :
    let sent = (stop_locked live 9 (sent_bytes 8)).0.transport.sent in
    (told.transport.sent ≡ sent)
    × ((run told (session (arrival 1500 [] ∷ []) ∷ []) (sent_bytes 8)).0.transport.sent ≡ sent)
    × (sent_after (receive_session told opening (arrival 1500 [] ∷ [])) (sent_bytes 8) ≡ sent)
    × (sent_after (after_discovery opening (arrival 1500 [] ∷ []) told (ok known)) (sent_bytes 8)
        ≡ sent)
    × (sent_after
          (after_connect opening
            (arrival 1500 [] ∷ [])
            told
            (connect told.transport opening.resolution))
          (sent_bytes 8)
        ≡ sent)
    × (sent_after
          (begin_stream told opening.start_sent opening.started_at (arrival 1500 [] ∷ []))
          (sent_bytes 8)
        ≡ sent)
    × (sent_after (receive_loop (arrival 1500 [] ∷ []) told 9000 false) (sent_bytes 8) ≡ sent)
stop_ends_sending_example =
    stop_ends_sending live 9 (sent_bytes 8) later_calls (sent_bytes 8) opening
      (arrival 1500 [] ∷ []) (ok known) 9000 false (session (arrival 1500 [] ∷ []) ∷ [])

abbrev biased : Transport
biased = record live.transport { sent = encode_request set_software_bias 0 ∷ [] }

abbrev restarted : Transport
restarted = record biased {
  sent = encode_request set_software_bias 0 ∷ encode_request start_realtime 0 ∷ [];
}

first_request : send live.transport (encode_request set_software_bias 0) (sent_bytes 8) ≡ ok biased
unfolding send encode_request
first_request = refl

second_request : send biased (encode_request start_realtime 0) (sent_bytes 8) ≡ ok restarted
unfolding send encode_request
second_request = refl

bias_iff_streaming_example :
    (bias live (sent_bytes 8) (sent_bytes 8)
        ≡ (record live { transport = restarted; rdt_sequence = rdt_reset live.rdt_sequence }, ok tt)
      × (live.stopping ≡ false)
      × (live.session_started ≡ true)
      × (is_faulted live.fault_latch ≡ false)
      × (live.health.state ≡ streaming))
    ⊎ (bias live (sent_bytes 8) (sent_bytes 8)
          ≡ (live, throws (not_connected_error "client is not streaming"))
        × (live.stopping
              || not live.session_started
              || is_faulted live.fault_latch
              || not (is_streaming live.health.state)
            ≡ true))
bias_iff_streaming_example =
    bias_iff_streaming live biased restarted (sent_bytes 8) (sent_bytes 8) first_request
      second_request

-- A client whose worker has ended with a fault and has been joined.
abbrev faulted : Impl ℕ
faulted = record client {
  worker = none;
  active_worker_id = 0;
  worker_exited = true;
  fault_latch = FaultCode.timeout;
  health = record client.health {
    state = Types.faulted;
    fault_code = FaultCode.timeout;
    last_error = "no valid RDT record before timeout";
  };
}

start_undone_example :
    start faulted 9 (some 2) (throws (system_error "no threads"))
    ≡ (faulted, refused (system_error "no threads"))
start_undone_example =
    start_undone faulted 9 (some 2) (system_error "no threads")
      (record { exited = refl; not_joining = refl; no_worker = refl }) (inr (refl, refl))

-- A client whose worker has ended and has not been joined.
abbrev ended : Impl ℕ
ended = record faulted { worker = some 5; active_worker_id = 5 }

start_after_exit_example :
    let t = (start ended 9 (some 2) (ok 6)).0 in
    ((start_locked ended 9 (some 2) (ok 6)).1 ≡ first_step (some 5))
    × ((start ended 9 (some 2) (ok 6)).1 ≡ started)
    × (t.fault_latch ≡ FaultCode.none)
    × (t.latest ≡ none)
    × (t.worker ≡ some 6)
    × (first_sample_ready t t.generation ≡ false)
start_after_exit_example = start_after_exit ended 9 6 (some 2) refl refl (λ e. ground arith)
