-- ===== src/Client/Storm.antt =====
-- The malformed datagrams of a session, in `receive_session` of core/src/detail/client_impl.cpp.
use py_net_ft.Common.{
  refl, some, is_nil, ℕ, ◌+◌, ◌-◌, ◌≤◌, ◌<◌, ◌≡◌, ◌≢◌, ap, ◌∙◌, Bool, false, List, [], ◌∷◌, length,
  leb, arith, All, Bool-cases, inl, inr, if◌then◌else◌,
}
use py_net_ft.Double.{Double}
use py_net_ft.Time.{seconds_of}
use py_net_ft.Protocol.{decode_record}
use py_net_ft.Transport.{Transport, received, receive}
use py_net_ft.Client.State.{Impl, malformed_storm, malformed_storm_threshold}
use py_net_ft.Client.Command.{interlude}
use py_net_ft.Client.Session.{
  Round, Next, goes_on, ends, SessionEnd, running, outcome, handle_decoded, round, receive_loop,
  handle_bytes, count_malformed, mark_malformed,
}

-- It is not of the size of a record, and not empty.
abbrev pub IsMalformed : List ℕ → Type 0
IsMalformed bytes = (length bytes ≢ 36) × (length bytes ≢ 0)

module _ (F : Type 0) ⦃d : Double F⦄ where
  -- The pass comes before the deadline, no other thread calls up to the handling of what is received, and
  -- the transport returns the bytes, whatever the clock shows each time and after whichever waits.
  pub record Brings (t : Transport) (deadline : ℕ) (r : Round) (bytes : List ℕ) : Type 0 where
    pub none_before : r.before ≡ []
    pub none_while_receiving : r.while_receiving ≡ []
    pub none_late : r.late ≡ []
    pub in_time : leb deadline r.now ≡ false
    pub received_eq :
        receive {F = F} t t r.receive_at (seconds_of (deadline - r.now)) r.polls r.recv
        ≡ received bytes

  -- The datagram that a pass brings is malformed.
  abbrev pub BringsMalformed : Transport → ℕ → Round → Type 0
  BringsMalformed t deadline r = (bytes : List ℕ) × Brings t deadline r bytes × IsMalformed bytes

module _ {F : Type 0} ⦃d : Double F⦄ where
  pub round-Brings :
      (s : Impl F) (deadline : ℕ) (valid : Bool) (r : Round) (bytes : List ℕ)
      → s.stopping ≡ false
      → Brings F s.transport deadline r bytes
      → is_nil bytes ≡ false
      → round s deadline valid r
        ≡ handle_decoded s deadline valid r (decode_record (some bytes) (length bytes))
  unfolding round interlude handle_bytes
  round-Brings s deadline valid r bytes n b m =
      rw (b.none_before, b.none_while_receiving, b.none_late, n, b.in_time, b.received_eq, m) refl

  decode-IsMalformed :
      (s : Impl F) (deadline : ℕ) (valid : Bool) (r : Round) (bytes : List ℕ)
      → IsMalformed bytes
      → handle_decoded s deadline valid r (decode_record (some bytes) (length bytes))
        ≡ count_malformed s deadline valid
  unfolding decode_record
  decode-IsMalformed s deadline valid r bytes m = ground (arith, m.0)

  round_malformed :
      (s : Impl F) (deadline : ℕ) (valid : Bool) (r : Round)
      → s.stopping ≡ false
      → BringsMalformed F s.transport deadline r
      → round s deadline valid r ≡ count_malformed s deadline valid
  round_malformed s deadline valid r n (bytes, b, m) =
      round-Brings s deadline valid r bytes n b (ground (arith, m.1))
      ∙ decode-IsMalformed s deadline valid r bytes m

  count_malformed_below :
      (s : Impl F) (deadline : ℕ) (valid : Bool)
      → s.consecutive_malformed + 1 < malformed_storm_threshold
      → count_malformed s deadline valid ≡ goes_on (mark_malformed s) deadline valid
  unfolding count_malformed
  count_malformed_below s deadline valid h = ground arith

  count_malformed_last :
      (s : Impl F) (deadline : ℕ) (valid : Bool)
      → s.consecutive_malformed + 1 ≡ malformed_storm_threshold
      → count_malformed s deadline valid
        ≡ ends (mark_malformed s) (outcome malformed_storm "" valid)
  unfolding count_malformed
  count_malformed_last s deadline valid h = ground arith

  abbrev continuing : List Round → Next F → Impl F × SessionEnd
  continuing rounds next = elim next [
    | goes_on s deadline valid ↦ receive_loop rounds s deadline valid
    | ends s e ↦ (s, e)
  ]

  loop_on :
      (r : Round) (rounds : List Round) (s t : Impl F) (deadline : ℕ) (valid : Bool)
      → round s deadline valid r ≡ goes_on t deadline valid
      → receive_loop (r ∷ rounds) s deadline valid ≡ receive_loop rounds t deadline valid
  unfolding receive_loop
  loop_on r rounds s t deadline valid e = ap (continuing rounds) e

  loop_ends :
      (r : Round) (rounds : List Round) (s t : Impl F) (deadline : ℕ) (valid : Bool)
      (o : SessionEnd)
      → round s deadline valid r ≡ ends t o
      → (receive_loop (r ∷ rounds) s deadline valid).1 ≡ o
  unfolding receive_loop
  loop_ends r rounds s t deadline valid o e = ap (λ (next : Next F). (continuing rounds next).1) e

  -- A session that no stop has been asked of, in which every pass of the loop brings a malformed datagram
  -- before the deadline, with no other thread calling, at whatever times, ends as a malformed storm with the
  -- one that makes ten in a row, those counted before included; and with fewer it goes on waiting.
  pub receive_loop_storm :
      (rounds : List Round) (s : Impl F) (deadline : ℕ) (valid : Bool)
      → s.stopping ≡ false
      → All (BringsMalformed F s.transport deadline) rounds
      → s.consecutive_malformed < malformed_storm_threshold
      → (receive_loop rounds s deadline valid).1 ≡ (
          if leb malformed_storm_threshold (s.consecutive_malformed + length rounds)
          then outcome malformed_storm "" valid
          else running)
  receive_loop_storm [] s deadline valid n m h = unfold receive_loop in ground arith
  receive_loop_storm (r ∷ rounds) s deadline valid n m h =
      elim (Bool-cases (leb malformed_storm_threshold (s.consecutive_malformed + 1))) [
        | inl full ↦
            let last : s.consecutive_malformed + 1 ≡ malformed_storm_threshold = ground arith in
            loop_ends r rounds s _ deadline valid _ (
              round_malformed s deadline valid r n m.0 ∙ count_malformed_last s deadline valid last)
            ∙ over (s.consecutive_malformed + length (r ∷ rounds))
                (outcome malformed_storm "" valid) running (omega arith)
        | inr room ↦
            let more : s.consecutive_malformed + 1 < malformed_storm_threshold = ground arith in
            ap (λ (x : Impl F × SessionEnd). x.1)
              (loop_on r rounds s _ deadline valid (
                round_malformed s deadline valid r n m.0
                ∙ count_malformed_below s deadline valid more))
            ∙ receive_loop_storm rounds (mark_malformed s) deadline valid n m.1 (omega arith)
            ∙ same ((mark_malformed s).consecutive_malformed + length rounds)
                (s.consecutive_malformed + length (r ∷ rounds)) (outcome malformed_storm "" valid)
                running (ground arith)
      ]
    where
      over :
          (n : ℕ) (x y : SessionEnd)
          → malformed_storm_threshold ≤ n
          → x ≡ (if leb malformed_storm_threshold n then x else y)
      over n x y h = ground arith

      same :
          (m n : ℕ) (x y : SessionEnd)
          → m ≡ n
          → (if leb malformed_storm_threshold m then x else y)
            ≡ (if leb malformed_storm_threshold n then x else y)
      same m n x y e = ap (λ (k : ℕ). if leb malformed_storm_threshold k then x else y) e
