-- ===== src/Tests/Windows.antt =====
-- Runs of the two sockets.
use py_net_ft.Common.{refl, ℕ, ◌≡◌, ◌+◌, true, false, none, some, List, [], ◌∷◌, arith}
use py_net_ft.Time.{checked_deadline}
use py_net_ft.Transport
use py_net_ft.Transport.{Transport}
use py_net_ft.Transport.Windows
use py_net_ft.Transport.Windows.{
  Slice, no_events, events, wait, addresses, no_connection, connected, sent_bytes, datagram,
  RecvResult,
}
use py_net_ft.Transport.Windows.Waits.{wait_ends, is_over}
use py_net_ft.Transport.Windows.Refines.{
  windows_refines, outline, received_outline, as_resolution, as_send, as_recv, as_polls_up_to,
}
use py_net_ft.Transport.Waits
use py_net_ft.Transport.Waits.{signals_end}
use py_net_ft.Tests.{exact}

abbrev silent : ℕ → Slice
silent now = record {
  shutdown_requested = false;
  now = now;
  answer = λ timeout. no_events;
  later = now + 50_000_000;
}

abbrev stopping : Slice
stopping = record (silent 50_000_000) { shutdown_requested = true }

abbrev arriving : Slice
arriving = record (silent 50_000_000) {
  answer = λ timeout.
      events (record { error = false; hung_up = false; invalid = false; pending_error = none });
}

abbrev slices : List Slice
slices = silent 0 ∷ silent 50_000_000 ∷ silent 100_000_000 ∷ []

wait_ends_example : is_over (wait ℕ slices 100_000_000) ≡ true
wait_ends_example =
    wait_ends ℕ 2 50_000_000 0 100_000_000 slices (omega arith) (omega arith) (ground arith)

abbrev open_socket : Transport
open_socket = record { socket = some 3; shutdown_requested = false; sent = [] }

abbrev incoming : RecvResult
incoming = datagram (1 ∷ 2 ∷ [])

windows_refines_example :
    (outline (Windows.connect open_socket (addresses (no_connection 7 ∷ connected 4 ∷ [])))
      ≡ outline (
          Transport.connect open_socket
            (as_resolution (addresses (no_connection 7 ∷ connected 4 ∷ [])))))
    × (outline (Windows.send open_socket (1 ∷ []) (sent_bytes 1))
        ≡ outline (Transport.send open_socket (1 ∷ []) (as_send (sent_bytes 1))))
    × (received_outline
          (Windows.receive {F = ℕ} open_socket open_socket 0 1 (silent 0 ∷ arriving ∷ []) incoming)
        ≡ received_outline (
            Transport.receive {F = ℕ} open_socket open_socket 0 1
              (as_polls_up_to ℕ (checked_deadline {F = ℕ} 0 1) (silent 0 ∷ arriving ∷ []))
              (as_recv incoming)))
    × (Windows.shutdown open_socket ≡ Transport.shutdown open_socket)
    × (Windows.close open_socket ≡ Transport.close open_socket)
windows_refines_example =
    windows_refines ℕ open_socket open_socket (addresses (no_connection 7 ∷ connected 4 ∷ []))
      (1 ∷ []) (sent_bytes 1) 0 1 (silent 0 ∷ arriving ∷ []) incoming
      ((λ milliseconds. refl), ((λ milliseconds. refl), tt)) refl

-- Two signals, and then nothing.
abbrev interruptions : List (ℕ → Transport.Poll)
interruptions =
    (λ milliseconds. Transport.signal 50)
    ∷ (λ milliseconds. Transport.signal 100)
    ∷ (λ milliseconds. Transport.no_events)
    ∷ []

interrupted_twice : Waits.IsTimed 50 0 interruptions
interrupted_twice = λ first. (omega arith, λ second. (omega arith, λ third. tt))

signals_end_example : Waits.is_over (Transport.wait {F = ℕ} interruptions 1 100) ≡ true
signals_end_example =
    signals_end {F = ℕ} 2 50 0 100 interruptions 1 (omega arith) (omega arith) interrupted_twice
