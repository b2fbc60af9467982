-- ===== src/Tests/Parts.antt =====
-- Codecs, trackers, units, the configuration, the fault latch and the queue.
use py_net_ft.Common.{
  if◌then◌else◌, ◌==◌, ℕ, ◌+◌, ◌-◌, ◌≡◌, ◌↔◌, refl, true, false, some, List, [], ◌∷◌, arith, length,
  map, add64,
}
use py_net_ft.Protocol.{decoded, decode_record, record_at}
use py_net_ft.Protocol.Wire.{IsInRange, record_bytes, record_bytes-record_at}
use py_net_ft.Sequence.{FtSequenceTracker, new_rdt_tracker, new_ft_tracker, ft_observe, restart}
use py_net_ft.Sequence.Rdt.{tracking, wrap32, observe_all, last_of, observe_all_accounts}
use py_net_ft.Sequence.Ft.{observes, IsConfirmed, restart-IsConfirmed}
use py_net_ft.Status.Text.{names_below, decode_status, decode_status-joined, joined}
use py_net_ft.Types.{newton, newton_meter}
use py_net_ft.Types.Names.{
  units_from_string_iff, force_unit_from_string, force_unit_to_string, torque_unit_from_string,
  torque_unit_to_string,
}
use py_net_ft.Time.{seconds_of}
use py_net_ft.Bindings.SampleQueue.{SampleQueue, nothing, timeout, read_woken, is_ready}
use py_net_ft.Bindings.SampleQueue.Fifo.{push_all, push_all-take_last, take_last}
use py_net_ft.Bindings.NativeClient.{ReadRound, read_loop, read_round}
use py_net_ft.Bindings.NativeClient.Read.{Expires, read_times_out}
use py_net_ft.Tests.{exact, raw}

abbrev wire : List ℕ
wire = record_bytes (raw 7)

record_bytes-record_at_example :
    (decode_record (some wire) (length wire) ≡ decoded (record_at wire))
    × IsInRange (record_at wire)
    × (record_bytes (record_at wire) ≡ wire)
record_bytes-record_at_example = record_bytes-record_at wire (ground arith) refl

-- Numbers that pass the end of the 32 bits.
abbrev numbers : List ℕ
numbers = 4294967296 ∷ 4294967299 ∷ []

observe_all_accounts_example :
    let (t, lost) = observe_all new_rdt_tracker (map wrap32 (4294967295 ∷ numbers)) in
    (t ≡ tracking (last_of 4294967295 numbers))
    × (lost + length (4294967295 ∷ numbers) ≡ last_of 4294967295 numbers - 4294967295 + 1)
observe_all_accounts_example = observe_all_accounts 4294967295 numbers (ground arith)

-- A sensor that has counted to 100,000.
abbrev counted : FtSequenceTracker
counted = record new_ft_tracker { has_last = true; previous = 100_000 }

rebooted : (ft_observe (ft_observe counted 1).0 2).1 ≡ restart
unfolding ft_observe
rebooted = refl

restart-IsConfirmed_example : IsConfirmed counted (observes 1) 2
restart-IsConfirmed_example =
    restart-IsConfirmed counted (observes 1) 2 refl (omega arith) (omega arith) rebooted

units_from_string_iff_example :
    ((force_unit_from_string "Nm" ≡ some newton) ↔ (force_unit_to_string newton ≡ "Nm"))
    × ((torque_unit_from_string "Nm" ≡ some newton_meter)
        ↔ (torque_unit_to_string newton_meter ≡ "Nm"))
units_from_string_iff_example = units_from_string_iff "Nm" newton newton_meter

abbrev warned : ℕ
warned = 0x80010000

decode_status-joined_example :
    decode_status warned ≡ (if warned == 0 then "healthy" else joined (names_below 32 warned))
decode_status-joined_example = decode_status-joined warned

-- A queue of two places that holds one number.
abbrev queue : SampleQueue ℕ
queue = record {
  capacity = 2;
  samples = 4 ∷ [];
  dropped_count = 0;
  close_generation = 6;
  closed = false;
}

push_all-take_last_example :
    ((push_all queue (5 ∷ 6 ∷ [])).samples ≡ take_last 2 (4 ∷ 5 ∷ 6 ∷ []))
    × ((push_all queue (5 ∷ 6 ∷ [])).dropped_count ≡ add64 0 (1 + 2 - 2))
    × ((push_all queue (5 ∷ 6 ∷ [])).close_generation ≡ 6)
    × ((push_all queue (5 ∷ 6 ∷ [])).closed ≡ false)
push_all-take_last_example =
    push_all-take_last queue (5 ∷ 6 ∷ [])
      (record { capacity_pos = omega arith; length_le = omega arith }) (omega arith)

-- A pass of a reader that finds the queue empty.
abbrev pass : ℕ → ReadRound ℕ
pass now = record {
  running = true;
  faulted = false;
  queue = record {
    capacity = 2;
    samples = [];
    dropped_count = 0;
    close_generation = 6;
    closed = false;
  };
  still_running = true;
  faulted_later = false;
  now = now;
}

abbrev too_late : List (ReadRound ℕ)
too_late = pass 1_000_000_000 ∷ pass 3_000_000_000 ∷ []

timed_out : read_loop too_late (some 2) 6 500_000_000 ≡ some (nothing timeout, (pass 0).queue)
unfolding read_loop read_round read_woken is_ready seconds_of
timed_out = refl

read_times_out_example : Expires (some 2) 500_000_000 too_late
read_times_out_example =
    read_times_out too_late (some 2) 6 500_000_000 (nothing timeout) (pass 0).queue timed_out refl
