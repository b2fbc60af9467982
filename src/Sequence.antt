-- ===== src/Sequence.antt =====
-- core/src/detail/sequence.hpp and sequence.cpp: the trackers of the RDT and the F/T sequence numbers. A
-- method returns the new tracker and its observation.
pub mod Rdt
pub mod Ft
use py_net_ft.Common.{ℕ, ◌+◌, Bool, true, false, ◌&&◌, ltb, leb, ◌==◌, if◌then◌else◌, sub32}

pub data SequenceKind : Type 0 where
  first contiguous gapped duplicate out_of_order : SequenceKind

pub record SequenceObservation : Type 0 where
  pub kind : SequenceKind
  pub gap : ℕ

pub record RdtSequenceTracker : Type 0 where
  pub has_last : Bool
  pub previous : ℕ

pub data FtSequenceKind : Type 0 where
  first forward stall backward restart : FtSequenceKind

pub record FtSequenceTracker : Type 0 where
  pub has_last : Bool
  pub previous : ℕ
  pub has_restart_candidate : Bool
  pub restart_candidate : ℕ

abbrev pub new_rdt_tracker : RdtSequenceTracker
new_rdt_tracker = record { has_last = false; previous = 0 }

abbrev pub new_ft_tracker : FtSequenceTracker
new_ft_tracker = record {
  has_last = false;
  previous = 0;
  has_restart_candidate = false;
  restart_candidate = 0;
}

abbrev pub restart_low_max : ℕ
restart_low_max = 0x0000ffff

abbrev pub restart_min_baseline : ℕ
restart_min_baseline = restart_low_max + 1

abbrev observed : SequenceKind → ℕ → SequenceObservation
observed k n = record { kind = k; gap = n }

unfoldable pub rdt_observe : RdtSequenceTracker → ℕ → RdtSequenceTracker × SequenceObservation
rdt_observe t current =
    let delta = sub32 current t.previous in
    let moved : RdtSequenceTracker = record t { previous = current } in
    if t.has_last
    then (if delta == 0
        then (t, observed duplicate 0)
        else if ltb delta 0x80000000
        then (if delta == 1
            then (moved, observed contiguous 0)
            else (moved, observed gapped (sub32 delta 1)))
        else (t, observed out_of_order 0))
    else (record { has_last = true; previous = current }, observed SequenceKind.first 0)

unfoldable pub rdt_reset : RdtSequenceTracker → RdtSequenceTracker
rdt_reset t = record t { has_last = false }

unfoldable pub begin_session : FtSequenceTracker → FtSequenceTracker
begin_session t = record t { has_restart_candidate = false }

-- The confirmation of a restart: a low candidate, and a low number that follows it.
unfoldable pub confirms_restart : FtSequenceTracker → ℕ → Bool
confirms_restart t current =
    let candidate_delta = sub32 current t.restart_candidate in
    leb restart_min_baseline t.previous
    && t.has_restart_candidate
    && leb t.restart_candidate restart_low_max
    && leb current restart_low_max
    && ltb 0 candidate_delta
    && ltb candidate_delta 0x80000000

unfoldable pub ft_observe : FtSequenceTracker → ℕ → FtSequenceTracker × FtSequenceKind
unfolding confirms_restart
ft_observe t current =
    if t.has_last
    then (if current == t.previous
        then (record t { has_restart_candidate = false }, stall)
        else if ltb (sub32 current t.previous) 0x80000000
        then (record t { previous = current; has_restart_candidate = false }, forward)
        else if confirms_restart t current
        then (record t { previous = current; has_restart_candidate = false }, restart)
        else (record t { restart_candidate = current; has_restart_candidate = true }, backward))
    else (record t { has_last = true; previous = current }, FtSequenceKind.first)
