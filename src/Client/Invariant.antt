-- ===== src/Client/Invariant.antt =====
-- The rule for invariants of the client's worker: what its single writes preserve, a whole session and a
-- whole run of core/src/detail/client_impl.cpp preserve. The number is of the records that may still come.
pub mod Run
use py_net_ft.Common.{
  ℕ, suc, ◌≡◌, refl, String, Bool, true, false, Option, none, some, List, [], ◌∷◌, if_both, length,
  is_nil, leb,
}
use py_net_ft.Exception.{
  Exception, Result, ok, throws, what, discovery_error, invalid_argument, logic_error,
  runtime_error, not_connected_error, system_error, unknown,
}
use py_net_ft.Double.{Double}
use py_net_ft.Time.{checked_deadline}
use py_net_ft.Protocol.{Decoded, decoded, refused, decode_record, RawRecord}
use py_net_ft.Types.{SensorConfiguration, HealthSnapshot, FaultCode, connecting}
use py_net_ft.Types
use py_net_ft.Transport.{
  Transport, SendResult, Received, received, raised, pending, receive, connect, send,
}
use py_net_ft.Client.State.{Impl, SessionResult, apply_configuration, malformed_storm_threshold}
use py_net_ft.Client.Command.{Call, interlude, close_session, set_state}
use py_net_ft.Client.Record.{handle_record, CallbackResult}
use py_net_ft.Client.Session.{
  Start, Round, Next, SessionEnd, goes_on, ends, time_out, count_malformed, mark_malformed,
  count_timeout, after_record, timed_record, handle_decoded, handle_bytes, handle_received, round,
  receive_loop, started, streaming_from, reset_trackers, after_start_sent, begin_stream,
  after_connect, open_stream, after_discovery, receive_session, configuration_for_session, caught,
  caught_discovery, finished,
}

module _ {F : Type 0} where
  abbrev pub client_of : Next F → Impl F
  client_of (goes_on s deadline valid) = s
  client_of (ends s e) = s

-- The budget before the rounds of a session, for a budget after them.
abbrev pub budget : List Round → ℕ → ℕ
budget [] n = n
budget (r ∷ rounds) n = suc (budget rounds n)

module _ {F : Type 0} ⦃d : Double F⦄ where
  -- Whatever the sensor answers.
  abbrev pub AnyAnswer : Result (SensorConfiguration F) → Type 0
  AnyAnswer answer = Unit

  -- `P` survives every write of a session whose discovery ends as `C` says.
  pub record IsSessionInvariant (C : Result (SensorConfiguration F) → Type 0)
      (P : ℕ → Impl F → Type 0) : Type 0 where
    pub weaken : (n : ℕ) (s : Impl F) → P (suc n) s → P n s
    pub by_calls : (n : ℕ) (s : Impl F) (calls : List Call) → P n s → P n (interlude s calls)
    pub by_connecting : (n : ℕ) (s : Impl F) → P n s → P n (set_state connecting s)
    pub by_configuration :
        (n : ℕ) (s : Impl F) (answer : Result (SensorConfiguration F)) (c : SensorConfiguration F)
        → C answer
        → configuration_for_session s.config answer ≡ ok c
        → P n s
        → P n (apply_configuration s c)
    pub by_transport :
        (n : ℕ) (s : Impl F) (t : Transport) → P n s → P n (record s { transport = t })
    pub by_start :
        (n : ℕ) (s : Impl F) (t : Transport)
        → P n s
        → P n (reset_trackers (record s { transport = t; session_started = true }))
    pub by_timeout : (n : ℕ) (s : Impl F) → P n s → P n (count_timeout s)
    pub by_malformed : (n : ℕ) (s : Impl F) → P n s → P n (mark_malformed s)
    pub by_record :
        (n : ℕ) (s : Impl F) (r : RawRecord) (t : ℕ) (calls : List Call) (result : CallbackResult)
        → P (suc n) s
        → P n (handle_record (record s { consecutive_malformed = 0 }) r t calls result).0
    -- a valid record whose deadline cannot be computed
    pub by_valid : (n : ℕ) (s : Impl F) → P n s → P n (record s { consecutive_malformed = 0 })

  module _ {C : Result (SensorConfiguration F) → Type 0} {P : ℕ → Impl F → Type 0}
      (v : IsSessionInvariant C P) where
    open v use {
      weaken, by_calls, by_connecting, by_configuration, by_transport, by_start, by_timeout,
      by_malformed, by_record, by_valid,
    }

    -- `P` of the client that a pass of the loop leaves.
    record After (n : ℕ) (next : Next F) : Type 0 where
      kept : P n (client_of next)

    time_out-After : (n : ℕ) (s : Impl F) (valid : Bool) → P n s → After n (time_out s valid)
    unfolding time_out
    time_out-After n s valid p =
        if_both (After n) s.stopping (record { kept = p }) (record { kept = by_timeout n s p })

    count_malformed-After :
        (n : ℕ) (s : Impl F) (deadline : ℕ) (valid : Bool)
        → P n s
        → After n (count_malformed s deadline valid)
    unfolding count_malformed
    count_malformed-After n s deadline valid p =
        if_both (After n) (leb malformed_storm_threshold (mark_malformed s).consecutive_malformed)
          (record { kept = by_malformed n s p }) (record { kept = by_malformed n s p })

    after_record-After :
        (n : ℕ) (x : Impl F × Result (Option SessionResult)) (deadline : ℕ)
        → P n x.0
        → After n (after_record x deadline)
    after_record-After n (s, throws e) deadline p = record { kept = p }
    after_record-After n (s, ok none) deadline p = record { kept = p }
    after_record-After n (s, ok (some result)) deadline p = record { kept = p }

    timed_record-After :
        (n : ℕ) (s : Impl F) (raw : RawRecord) (r : Round) (deadline : Result ℕ)
        → P (suc n) s
        → After n (timed_record (record s { consecutive_malformed = 0 }) raw r deadline)
    timed_record-After n s raw r (throws e) p = record { kept = by_valid n s (weaken n s p) }
    timed_record-After n s raw r (ok deadline) p =
        after_record-After n _ deadline
          (by_record n s raw r.received_at r.in_callback r.callback_result p)

    handle_decoded-After :
        (n : ℕ) (s : Impl F) (deadline : ℕ) (valid : Bool) (r : Round) (x : Decoded)
        → P (suc n) s
        → After n (handle_decoded s deadline valid r x)
    handle_decoded-After n s deadline valid r (refused e) p =
        count_malformed-After n s deadline valid (weaken n s p)
    handle_decoded-After n s deadline valid r (decoded raw) p = timed_record-After n s raw r _ p

    handle_bytes-After :
        (n : ℕ) (s : Impl F) (deadline : ℕ) (valid : Bool) (r : Round) (bytes : List ℕ)
        → P (suc n) s
        → After n (handle_bytes s deadline valid r bytes)
    unfolding handle_bytes
    handle_bytes-After n s deadline valid r bytes p =
        let q = by_calls (suc n) s r.late p in
        if_both (After n) s.stopping (record { kept = weaken n s p })
          (if_both (After n) (is_nil bytes) (time_out-After n _ valid (weaken n _ q))
            (handle_decoded-After n _ deadline valid r _ q))

    handle_received-After :
        (n : ℕ) (s : Impl F) (deadline : ℕ) (valid : Bool) (r : Round) (x : Received)
        → P (suc n) s
        → After n (handle_received s deadline valid r x)
    handle_received-After n s deadline valid r (raised e) p = record { kept = weaken n s p }
    handle_received-After n s deadline valid r pending p = record { kept = weaken n s p }
    handle_received-After n s deadline valid r (received bytes) p =
        handle_bytes-After n s deadline valid r bytes p

    round-After :
        (n : ℕ) (s : Impl F) (deadline : ℕ) (valid : Bool) (r : Round)
        → P (suc n) s
        → After n (round s deadline valid r)
    unfolding round
    round-After n s deadline valid r p =
        let q = by_calls (suc n) s r.before p in
        if_both (After n) (interlude s r.before).stopping (record { kept = weaken n _ q })
          (if_both (After n) (leb deadline r.now)
            (time_out-After n _ valid (weaken n _ (by_calls (suc n) _ r.late q)))
            (handle_received-After n _ deadline valid r _ (by_calls (suc n) _ r.while_receiving q)))

    pub weaken_all : (rounds : List Round) (n : ℕ) (s : Impl F) → P (budget rounds n) s → P n s
    weaken_all [] n s p = p
    weaken_all (r ∷ rounds) n s p = weaken_all rounds n s (weaken (budget rounds n) s p)

    receive_loop-invariant :
        (rounds : List Round) (n : ℕ) (s : Impl F) (deadline : ℕ) (valid : Bool)
        → P (budget rounds n) s
        → P n (receive_loop rounds s deadline valid).0
    unfolding receive_loop
    receive_loop-invariant [] n s deadline valid p = p
    receive_loop-invariant (r ∷ rounds) n s deadline valid p =
        go (round s deadline valid r) (round-After (budget rounds n) s deadline valid r p)
          (λ s' deadline' valid' q. receive_loop-invariant rounds n s' deadline' valid' q)
      where
        go :
            (next : Next F)
            → After (budget rounds n) next
            → ((s' : Impl F) (deadline' : ℕ) (valid' : Bool)
                → P (budget rounds n) s'
                → P n (receive_loop rounds s' deadline' valid').0)
            → P n
                (elim next as (λ _. Impl F × SessionEnd) [
                  | goes_on s' deadline' valid' ↦ receive_loop rounds s' deadline' valid'
                  | ends s' e ↦ (s', e)
                ]).0
        go (goes_on s' deadline' valid') q rest = rest s' deadline' valid' q.kept
        go (ends s' e) q rest = weaken_all rounds n s' q.kept

    streaming_from-invariant :
        (rounds : List Round) (n : ℕ) (s : Impl F) (deadline : Result ℕ)
        → P (budget rounds n) s
        → P n (streaming_from rounds s deadline).0
    streaming_from-invariant rounds n s (throws e) p = weaken_all rounds n s p
    streaming_from-invariant rounds n s (ok deadline) p =
        receive_loop-invariant rounds n s deadline false p

    after_start_sent-invariant :
        (rounds : List Round) (n : ℕ) (s : Impl F) (started_at : ℕ) (t : Result Transport)
        → P (budget rounds n) s
        → P n (after_start_sent s started_at rounds t).0
    after_start_sent-invariant rounds n s started_at (throws e) p = weaken_all rounds n s p
    after_start_sent-invariant rounds n s started_at (ok t) p =
        streaming_from-invariant rounds n _ _ (by_start (budget rounds n) s t p)

    begin_stream-invariant :
        (rounds : List Round) (n : ℕ) (s : Impl F) (sent : SendResult) (started_at : ℕ)
        → P (budget rounds n) s
        → P n (begin_stream s sent started_at rounds).0
    unfolding begin_stream
    begin_stream-invariant rounds n s sent started_at p =
        if_both (λ (x : Impl F × SessionEnd). P n x.0) s.stopping (weaken_all rounds n s p)
          (after_start_sent-invariant rounds n s started_at _ p)

    after_connect-invariant :
        (start : Start F) (rounds : List Round) (n : ℕ) (s : Impl F) (t : Result Transport)
        → P (budget rounds n) s
        → P n (after_connect start rounds s t).0
    after_connect-invariant start rounds n s (throws e) p = weaken_all rounds n s p
    after_connect-invariant start rounds n s (ok t) p =
        begin_stream-invariant rounds n _ start.start_sent start.started_at
          (by_calls _ _ start.before_sending (by_transport _ s t p))

    open_stream-invariant :
        (start : Start F) (rounds : List Round) (n : ℕ) (s : Impl F)
        → P (budget rounds n) s
        → P n (open_stream s start rounds).0
    unfolding open_stream
    open_stream-invariant start rounds n s p =
        if_both (λ (x : Impl F × SessionEnd). P n x.0) s.stopping (weaken_all rounds n s p)
          (after_connect-invariant start rounds n _ _ (by_calls _ s start.while_connecting p))

    after_discovery-invariant :
        (start : Start F) (rounds : List Round) (n : ℕ) (s : Impl F)
        (x : Result (SensorConfiguration F))
        → C start.discovery
        → configuration_for_session s.config start.discovery ≡ x
        → P (budget rounds n) s
        → P n (after_discovery start rounds s x).0
    after_discovery-invariant start rounds n s (throws e) k q p = weaken_all rounds n s p
    after_discovery-invariant start rounds n s (ok c) k q p =
        open_stream-invariant start rounds n _ (by_configuration _ s start.discovery c k q p)

    -- The rule for a session.
    pub receive_session-invariant :
        (start : Start F) (rounds : List Round) (n : ℕ) (s : Impl F)
        → C start.discovery
        → P (budget rounds n) s
        → P n (receive_session s start rounds).0
    unfolding receive_session
    receive_session-invariant start rounds n s k p =
        let q = by_connecting _ s p in
        if_both (λ (x : Impl F × SessionEnd). P n x.0) s.stopping (weaken_all rounds n _ q)
          (after_discovery-invariant start rounds n _ _ k refl
            (by_calls _ _ start.while_discovering q))
