-- ===== src/Tests/Natives.antt =====
-- A native client of the Python binding that is fed.
use mathlib.Core.List.{Sublist}
use py_net_ft.Common.{ℕ, ◌+◌, ◌≡◌, refl, true, List, [], ◌∷◌, ◌++◌, arith, length}
use py_net_ft.Client.Command.{biases}
use py_net_ft.Transport.{sent_bytes}
use py_net_ft.Bindings.SampleQueue.{fresh_queue}
use py_net_ft.Bindings.NativeClient.{NativeClient, queue_callback}
use py_net_ft.Bindings.NativeClient.Callback.{Activity, arrives, takes, operate}
use py_net_ft.Bindings.NativeClient.Delivery.{IsFeeding, delivered, got, operate-sublist}
use py_net_ft.Bindings.NativeClient.Delivery.Counts.{last_or, operate_conserves}
use py_net_ft.Common.{false, some, none}
use py_net_ft.Bindings.SampleQueue.{SampleQueue, nothing, closed}
use py_net_ft.Bindings.SampleQueue.Generation.{Step, resets, pushes}
use py_net_ft.Bindings.NativeClient.{ReadRound, WaitRound, read_loop, wait_loop}
use py_net_ft.Bindings.NativeClient.Stop.{queue_after, stop_ends_waiting}
use py_net_ft.Types.{Sample}
use py_net_ft.Client.Record.{make_sample}
use py_net_ft.Tests.{exact, known, live, raw}

abbrev fed : NativeClient ℕ
fed = record { queue = fresh_queue 2; client = live; running = true }

-- A record that repeats the one before it is not delivered.
abbrev arrivals : List Activity
arrivals =
    arrives (raw 7) 1500 []
    ∷ arrives (raw 7) 1600 []
    ∷ arrives (raw 8) 1700 (biases (sent_bytes 8) (sent_bytes 8) ∷ [])
    ∷ takes
    ∷ arrives (raw 9) 1800 []
    ∷ arrives (raw 10) 1900 []
    ∷ takes
    ∷ []

feeding : IsFeeding known live
feeding = record { configuration_eq = refl; callback = queue_callback; callback_eq = refl }

operate-sublist_example :
    Sublist
      (got (operate fed arrivals).1 ++ (operate fed arrivals).0.queue.samples)
      ([] ++ delivered known live arrivals)
operate-sublist_example = operate-sublist known fed arrivals feeding refl

operate_conserves_example :
    let (m, results) = operate fed arrivals in
    (length (got results) + length m.queue.samples + m.queue.dropped_count + 0
      ≡ 0 + 0 + m.client.health.delivered_count)
    × (m.client.latest ≡ last_or live.latest (delivered known live arrivals))
operate_conserves_example =
    operate_conserves known fed arrivals feeding
      (record { capacity_pos = omega arith; length_le = omega arith }) refl (omega arith)
      (omega arith)

-- The queue is reset and filled again after the stop.
abbrev restarted : List (Step (Sample ℕ))
restarted = resets ∷ pushes (make_sample known (raw 7) 1500) ∷ []

abbrev refilled : SampleQueue (Sample ℕ)
refilled = queue_after fed 9 (sent_bytes 8) restarted

abbrev late_read : ReadRound ℕ
late_read = record {
  running = true;
  faulted = false;
  queue = refilled;
  still_running = true;
  faulted_later = false;
  now = 1700;
}

abbrev late_wait : WaitRound
late_wait = record {
  running = true;
  faulted = false;
  generation = refilled.close_generation;
  received = true;
  generation_later = refilled.close_generation;
  now = 1700;
}

stop_ends_waiting_example :
    (read_loop {F = ℕ} (late_read ∷ []) none fed.queue.close_generation 1500
      ≡ some (nothing closed, refilled))
    × (wait_loop {F = ℕ} (late_wait ∷ []) 3 fed.queue.close_generation 1500 ≡ some false)
stop_ends_waiting_example =
    stop_ends_waiting fed 9 (sent_bytes 8) restarted late_read [] none late_wait [] 3 1500
      (omega arith) (omega arith) refl refl
