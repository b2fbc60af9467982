-- ===== src/Tests/Worker.antt =====
-- Runs of the worker, and records that it handles.
use py_net_ft.Common.{
  ◌-◌, All, ℕ, ◌+◌, false, ◌≤◌, ◌≡◌, ltb, refl, true, false, some, List, [], ◌∷◌, arith, length,
  leb, inc64, if◌then◌else◌,
}
use py_net_ft.Protocol.Wire.{record_bytes}
use py_net_ft.Sequence.Rdt.{tracking}
use py_net_ft.Transport.{receive, received, after_wait, wait, sent_bytes, addresses, no_connection}
use py_net_ft.Client.State.{
  Impl, malformed_storm, serious_status, fault_for, malformed_storm_threshold, SessionOutcome,
}
use py_net_ft.Client.Command.{interlude}
use py_net_ft.Client.Record.{returns, handle_record, account, account_for, hand_out, make_sample}
use py_net_ft.Client.Session.{Round, receive_session, receive_loop, running, outcome, finished}
use py_net_ft.Types.{reconnect}
use py_net_ft.Exception.{ok}
use py_net_ft.Types.Validate.{
  validate_config, is_blank, require_port, require_safe_timeout, require_positive_finite,
  require_safe_count, validate_calibration,
}
use py_net_ft.Client.Backoff.{GoesOn, here, onward, HasDoubles, limited_delay}
use py_net_ft.Client.Backoff.Limited.{GoesOn-limited}
use py_net_ft.Client.Worker.{
  run, Pass, message_of, WorkerNext, next_session, leaves, breaks, waits, next_backoff,
}
use py_net_ft.Client.Storm.{receive_loop_storm, Brings, BringsMalformed}
use py_net_ft.Client.Arrival.{round-record_bytes}
use py_net_ft.Client.Session.{after_record}
use py_net_ft.Client.Counters.{IsCounted}
use py_net_ft.Client.Counters.Run.{run-IsCounted}
use py_net_ft.Client.Delivery.{
  rdt_behind, handle_record_delivers, handle_record_withholds, is_delivered,
}
use py_net_ft.Client.Faults.{IsEnded, run-IsEnded, run_fail_stop}
use py_net_ft.Transport
use py_net_ft.Transport.{connect_any, send}
use py_net_ft.Protocol.{encode_request, decode_record, record_at, read_u32, read_i32, signed_of}
use py_net_ft.Status.{classify_status}
use py_net_ft.Client.Accounting.{outcome_of, passes}
use py_net_ft.Time.{seconds_of, checked_deadline, checked_duration}
use py_net_ft.Sequence.{rdt_observe, ft_observe, rdt_reset, begin_session}
use py_net_ft.Client.State.{apply_configuration, configure_health}
use py_net_ft.Client.Command.{call, stop_locked, end_stream, close_session}
use py_net_ft.Client.Session.{
  configuration_for_session, open_stream, begin_stream, round, handle_bytes,
}
use py_net_ft.Client.Worker.{run_loop, pass, after_session}
use py_net_ft.Tests.{
  arrival, exact, config, known, client, live, raw, opening, session, stopping_round,
}

abbrev quiet : Pass ℕ
quiet = session (
    arrival 1500 (record_bytes (raw 7)) ∷ arrival 1600 (record_bytes (raw 8)) ∷ stopping_round ∷ [])

-- A session that ends at a record with a serious status.
abbrev serious : Pass ℕ
serious = session (arrival 1500 (record_bytes (record (raw 7) { status = 0x80000000 })) ∷ [])

abbrev after_serious : Impl ℕ
after_serious = (receive_session client opening serious.rounds).0

abbrev serious_outcome : SessionOutcome
serious_outcome = record { result = serious_status; message = ""; received_valid_record = true }

ends_serious :
    receive_session client opening serious.rounds ≡ (after_serious, finished serious_outcome)
unfolding interlude send encode_request receive_session configuration_for_session
    apply_configuration configure_health open_stream Transport.connect connect_any begin_stream
    checked_deadline checked_duration receive_loop round rdt_reset begin_session Transport.receive
    Transport.wait Transport.after_wait seconds_of handle_bytes decode_record record_at read_u32
    read_i32 signed_of handle_record account account_for classify_status outcome_of hand_out passes
    rdt_observe ft_observe
ends_serious = refl

run_fail_stop_example :
    ((run client (serious ∷ quiet ∷ []) (sent_bytes 8)).1 ≡ true)
    × ((run client (serious ∷ quiet ∷ []) (sent_bytes 8)).0.fault_latch ≡ fault_for serious_status)
    × ((run client (serious ∷ quiet ∷ []) (sent_bytes 8)).0.health.last_error
        ≡ message_of serious_outcome)
run_fail_stop_example =
    run_fail_stop client serious (quiet ∷ []) (sent_bytes 8) after_serious serious_outcome refl refl
      (unfold interlude in refl) (unfold interlude in ends_serious) refl

run-IsCounted_example : IsCounted (run client (quiet ∷ []) (sent_bytes 8)).0.health
run-IsCounted_example =
    run-IsCounted client (quiet ∷ []) (sent_bytes 8) (ground arith) (omega arith)

-- The record of a repeated sequence number, and one that follows.
abbrev tracked : Impl ℕ
tracked = record live { rdt_sequence = tracking 7 }

handle_record_delivers_example :
    let u = (handle_record tracked (raw 8) 1500 [] returns).0 in
    let delivers = is_delivered tracked known (raw 8) 1500 returns in
    (u.latest ≡ (if delivers then some (make_sample known (raw 8) 1500) else tracked.latest))
    × (u.delivered_generation
        ≡ (if delivers then tracked.generation else tracked.delivered_generation))
    × (u.last_delivery_at ≡ (if delivers then 1500 else tracked.last_delivery_at))
    × (u.health.delivered_count ≡ (
        if delivers then inc64 tracked.health.delivered_count else tracked.health.delivered_count))
handle_record_delivers_example = handle_record_delivers tracked known (raw 8) 1500 [] returns refl

handle_record_withholds_example :
    ((handle_record tracked (raw 7) 1500 [] returns).0.latest ≡ tracked.latest)
    × ((handle_record tracked (raw 7) 1500 [] returns).0.delivered_generation
        ≡ tracked.delivered_generation)
    × ((handle_record tracked (raw 7) 1500 [] returns).0.health.delivered_count
        ≡ tracked.health.delivered_count)
handle_record_withholds_example =
    handle_record_withholds tracked known (raw 7) 1500 7 7 [] returns refl (omega arith)
      (omega arith) (rdt_behind refl refl refl)

abbrev noisy : Impl ℕ
noisy = record live { consecutive_malformed = 7 }

module _ (now : ℕ) (bytes : List ℕ) where
  -- What such a pass comes to for a client that streams, before its deadline.
  arrives :
      leb 9000 now ≡ false
      → receive noisy.transport noisy.transport now
          (seconds_of {F = ℕ} (9000 - now))
          (arrival now bytes).polls
          (arrival now bytes).recv
        ≡ received bytes
      → Brings ℕ noisy.transport 9000 (arrival now bytes) bytes
  arrives e f = record {
    none_before = refl;
    none_while_receiving = refl;
    none_late = refl;
    in_time = e;
    received_eq = f;
  }

Brings-short : Brings ℕ noisy.transport 9000 (arrival 1500 (1 ∷ [])) (1 ∷ [])
unfolding receive after_wait wait checked_deadline checked_duration seconds_of
Brings-short = arrives 1500 (1 ∷ []) refl refl

Brings-pair : Brings ℕ noisy.transport 9000 (arrival 1600 (1 ∷ 2 ∷ [])) (1 ∷ 2 ∷ [])
unfolding receive after_wait wait checked_deadline checked_duration seconds_of
Brings-pair = arrives 1600 (1 ∷ 2 ∷ []) refl refl

-- Nothing but malformed datagrams come.
abbrev noise : List Round
noise = arrival 1500 (1 ∷ []) ∷ arrival 1600 (1 ∷ 2 ∷ []) ∷ arrival 1600 (1 ∷ 2 ∷ []) ∷ []

noise_malformed : All (BringsMalformed ℕ noisy.transport 9000) noise
noise_malformed =
    let pair : BringsMalformed ℕ noisy.transport 9000 (arrival 1600 (1 ∷ 2 ∷ [])) =
      (1 ∷ 2 ∷ [], Brings-pair, ground arith) in
    ((1 ∷ [], Brings-short, ground arith), (pair, (pair, tt)))

receive_loop_storm_example : (receive_loop noise noisy 9000 false).1 ≡ (
    if leb malformed_storm_threshold (noisy.consecutive_malformed + length noise)
    then outcome malformed_storm "" false
    else running)
receive_loop_storm_example =
    receive_loop_storm noise noisy 9000 false refl noise_malformed (omega arith)

abbrev next_deadline : ℕ
next_deadline = 1_000_001_500

moves_deadline : checked_deadline 1500 noisy.config.receive_timeout ≡ ok next_deadline
unfolding checked_deadline checked_duration seconds_of
moves_deadline = refl

-- The clock has gone on by then.
abbrev later_arrival : Round
later_arrival = record (arrival 1400 (record_bytes (raw 7))) { received_at = 1500 }

Brings-record : Brings ℕ noisy.transport 9000 later_arrival (record_bytes (raw 7))
unfolding receive after_wait wait checked_deadline checked_duration seconds_of
Brings-record = record {
  none_before = refl;
  none_while_receiving = refl;
  none_late = refl;
  in_time = refl;
  received_eq = refl;
}

round-record_bytes_example :
    round noisy 9000 false later_arrival
    ≡ after_record
        (handle_record (record noisy { consecutive_malformed = 0 }) (raw 7) 1500 [] returns)
        next_deadline
round-record_bytes_example =
    round-record_bytes noisy 9000 next_deadline false later_arrival (raw 7) refl Brings-record
      (ground arith) moves_deadline

-- The worker ends where it is told to stop in its session.
pub stop_now : (run client (session (stopping_round ∷ []) ∷ []) (sent_bytes 8)).1 ≡ true
unfolding run run_loop pass interlude call stop_locked end_stream send encode_request
    Transport.shutdown receive_session configuration_for_session apply_configuration
    configure_health open_stream Transport.connect connect_any begin_stream checked_deadline
    checked_duration receive_loop round after_session close_session Transport.close rdt_reset
    begin_session
stop_now = refl

run-IsEnded_example : IsEnded (run client (session (stopping_round ∷ []) ∷ []) (sent_bytes 8)).0
run-IsEnded_example =
    run-IsEnded client (session (stopping_round ∷ []) ∷ []) (sent_bytes 8) refl stop_now

-- Under `Reconnect`, a pass whose session cannot connect.
abbrev retrying : Impl ℕ
retrying = record client { config = record config { recovery_policy = reconnect } }

abbrev refused : Pass ℕ
refused = record (session []) {
  start = record opening { resolution = addresses "refused" (no_connection "refused" ∷ []) };
}

abbrev client_after : WorkerNext ℕ → Impl ℕ
client_after (next_session s b) = s
client_after (leaves s) = s
client_after (breaks s e) = s
client_after (waits s) = s

abbrev delay_after : WorkerNext ℕ → ℕ
delay_after (next_session s b) = b
delay_after next = 0

abbrev retried : Impl ℕ
retried = client_after (pass retrying 1 refused)

GoesOn-once : GoesOn retrying 1 (refused ∷ []) retried (delay_after (pass retrying 1 refused))
unfolding pass receive_session interlude configuration_for_session apply_configuration
    configure_health open_stream Transport.connect connect_any close_session end_stream
    after_session checked_deadline checked_duration next_backoff
GoesOn-once = onward refl here

exact_doubles : HasDoubles ℕ
exact_doubles = record {
  double_above = λ x f p. ground (arith, p);
  stays_above = λ x y p q. ground (arith, p, q);
  lt_irreflexive = λ x. ground arith;
}

retrying_accepted : validate_config retrying.config (λ n. 1000 + n) ≡ ok tt
unfolding validate_config is_blank require_port require_safe_timeout require_positive_finite
    require_safe_count validate_calibration checked_duration checked_deadline
retrying_accepted = refl

GoesOn-limited_example :
    let b = delay_after (pass retrying 1 refused) in
    ((k : ℕ) × (k ≤ 1) × (b ≡ limited_delay retrying.config k))
    × (ltb 8 b ≡ false)
    × (run retrying (refused ∷ (quiet ∷ [])) (sent_bytes 8)
        ≡ run_loop (quiet ∷ []) retried b (sent_bytes 8))
GoesOn-limited_example =
    GoesOn-limited exact_doubles retrying retried (delay_after (pass retrying 1 refused))
      (refused ∷ []) (quiet ∷ []) (λ n. 1000 + n) (sent_bytes 8) retrying_accepted refl GoesOn-once
