-- ===== src/Sequence/Ft.antt =====
-- `FtSequenceTracker` of core/src/detail/sequence.cpp: when it reports a restart of the sensor.
use py_net_ft.Common.{refl, ℕ, ◌^◌, ◌≤◌, ◌<◌, ◌≡◌, ◌≢◌, true, false, arith}
use py_net_ft.Sequence.{
  FtSequenceTracker, backward, restart, ft_observe, begin_session, restart_low_max,
  restart_min_baseline,
}

-- What a client does with its tracker: it observes a number, or begins a session.
pub data FtEvent : Type 0 where
  observes : ℕ → FtEvent
  begins : FtEvent

abbrev pub follow : FtSequenceTracker → FtEvent → FtSequenceTracker
follow t (observes a) = (ft_observe t a).0
follow t begins = begin_session t

abbrev pub IsWord : FtEvent → Type 0
IsWord (observes a) = a < 2 ^ 32
IsWord begins = Unit {0}

-- What `restart-IsConfirmed` states of the number before the one that confirms.
pub record IsConfirmed (t : FtSequenceTracker) (e : FtEvent) (b : ℕ) : Type 0 where
  pub candidate : ℕ
  pub event_eq : e ≡ observes candidate
  pub reported : (ft_observe t candidate).1 ≡ backward
  pub left_alone : (ft_observe t candidate).0.previous ≡ t.previous
  pub high : restart_min_baseline ≤ t.previous
  pub rising : candidate < b
  pub low : b ≤ restart_low_max
  pub followed : (ft_observe (follow t e) b).0.previous ≡ b

confirmed :
    (t : FtSequenceTracker) (a b : ℕ)
    → t.has_last ≡ true
    → a < 2 ^ 32
    → b < 2 ^ 32
    → (ft_observe (ft_observe t a).0 b).1 ≡ restart
    → ((ft_observe t a).1 ≡ backward)
      × ((ft_observe t a).0.previous ≡ t.previous)
      × (restart_min_baseline ≤ t.previous)
      × (a < b)
      × (b ≤ restart_low_max)
      × ((ft_observe (ft_observe t a).0 b).0.previous ≡ b)
unfolding ft_observe
confirmed t a b l ha hb e = ground arith

-- Where a number has been seen, a restart that `observe` reports always follows another number of the same
-- session, and no beginning of a session: that number was reported as a step backward and left the last
-- number alone, the last number lies above the low range, and the two rise within that range. The tracker
-- follows the second of them.
pub restart-IsConfirmed :
    (t : FtSequenceTracker) (e : FtEvent) (b : ℕ)
    → t.has_last ≡ true
    → IsWord e
    → b < 2 ^ 32
    → (ft_observe (follow t e) b).1 ≡ restart
    → IsConfirmed t e b
unfolding ft_observe begin_session
restart-IsConfirmed t (observes a) b l ha hb e =
    let (reported, same, high, rising, low, followed) = confirmed t a b l ha hb e in
    record {
      candidate = a;
      event_eq = refl;
      reported = reported;
      left_alone = same;
      high = high;
      rising = rising;
      low = low;
      followed = followed;
    }
restart-IsConfirmed t begins b l ha hb e = ground arith

-- With no candidate yet and a last number above the low range and at most 2 ^ 31, two rising numbers in
-- the low range give a step backward and a restart at the second of them, which the tracker then holds.
pub restart_recognised :
    (t : FtSequenceTracker) (a b : ℕ)
    → t.has_last ≡ true
    → t.has_restart_candidate ≡ false
    → restart_min_baseline ≤ t.previous
    → t.previous ≤ 2 ^ 31
    → a < b
    → b ≤ restart_low_max
    → ((ft_observe t a).1 ≡ backward)
      × (ft_observe (ft_observe t a).0 b ≡ (
        record {
          has_last = true;
          previous = b;
          has_restart_candidate = false;
          restart_candidate = a;
        },
        restart,
      ))
unfolding ft_observe
restart_recognised t a b l n hp hq hab hb = ground arith

-- A new session forgets a candidate: its first number is never reported as a restart.
pub begin_session_no_restart :
    (t : FtSequenceTracker) (c : ℕ) → (ft_observe (begin_session t) c).1 ≢ restart
unfolding ft_observe begin_session
begin_session_no_restart t c = ground arith
