-- ===== src/Transport.antt =====
-- core/src/detail/udp_transport.hpp and udp_transport_posix.cpp: the UDP socket, with
-- udp_transport_windows.cpp in a child. What the operating
-- system answers (getaddrinfo, socket, connect, send, poll, recv) is an argument, an error by the text that
-- `strerror` has for it.
pub mod Windows
pub mod Waits
use py_net_ft.Common.{
  ℕ, ◌-◌, ◌^◌, String, concat, ◌++◌, Bool, true, false, Option, none, some, List, [], ◌∷◌, ◌==◌,
  leb, if◌then◌else◌, length,
}
use py_net_ft.Exception.{Exception, Result, ok, throws, runtime_error}
use py_net_ft.Double.{Double}
use py_net_ft.Time.{checked_deadline, seconds_of}

-- `sent` is the list of the requests that the socket has taken whole, the oldest first; no operation
-- reads it.
pub record Transport : Type 0 where
  pub socket : Option ℕ
  pub shutdown_requested : Bool
  pub sent : List (List ℕ)

abbrev pub new_transport : Transport
new_transport = record { socket = none; shutdown_requested = false; sent = [] }

-- What became of one address: no socket, no connection, or a connected socket.
pub data Attempt : Type 0 where
  no_socket : String → Attempt
  no_connection : String → Attempt
  connected : ℕ → Attempt

-- `addresses` also has the text of error 0, which the loop starts from.
pub data Resolution : Type 0 where
  unresolved : String → Resolution
  addresses : String → List Attempt → Resolution

pub data SendResult : Type 0 where
  sent_bytes : ℕ → SendResult
  send_failed : String → SendResult

-- The answer of `poll` to a timeout in milliseconds: its events, with `invalid` for POLLNVAL; no event; a signal, with the clock after
-- it; or another error.
pub data Poll : Type 0 where
  events : (invalid : Bool) → Poll
  no_events : Poll
  signal : ℕ → Poll
  poll_failed : String → Poll

pub data RecvResult : Type 0 where
  datagram : List ℕ → RecvResult
  recv_signal : RecvResult
  recv_failed : String → RecvResult

-- The loop over the addresses: the connected socket, or the last error.
unfoldable pub connect_any : List Attempt → String → Option ℕ × String
connect_any [] last_error = (none, last_error)
connect_any (no_socket error ∷ rest) last_error = connect_any rest error
connect_any (no_connection error ∷ rest) last_error = connect_any rest error
connect_any (connected fd ∷ rest) last_error = (some fd, last_error)

unfoldable pub socket_error : String → String → Result Transport
socket_error operation error = throws (runtime_error (concat operation (concat ": " error)))

abbrev pub attach : Transport → Option ℕ × String → Result Transport
attach t (none, error) = socket_error "failed to connect UDP socket" error
attach t (some fd, error) = ok (record t { socket = some fd; shutdown_requested = false })

-- A socket that is open is closed after the new one is connected.
unfoldable pub connect : Transport → Resolution → Result Transport
unfolding socket_error connect_any
connect t (unresolved reason) = throws (runtime_error (concat "failed to resolve sensor: " reason))
connect t (addresses no_error attempts) = attach t (connect_any attempts no_error)

abbrev pub sending : Transport → List ℕ → SendResult → Result Transport
sending t request (send_failed error) = socket_error "failed to send UDP request" error
sending t request (sent_bytes n) =
    if n == length request
    then ok (record t { sent = t.sent ++ (request ∷ []) })
    else throws (runtime_error "short UDP request write")

unfoldable pub send : Transport → List ℕ → SendResult → Result Transport
unfolding socket_error
send t request result = elim t.socket [
  | none ↦ throws (runtime_error "UDP socket is not connected")
  | some fd ↦ sending t request result
]

-- What the poll loop ends with.
pub data Waited : Type 0 where
  gave_up : Waited
  ready : (invalid : Bool) → Waited
  wait_failed : String → Waited
  waiting : Waited

-- The greatest `int`.
abbrev pub max_int : ℕ
max_int = 2 ^ 31 - 1

module _ {F : Type 0} ⦃d : Double F⦄ where
  open d use {of_nat, mul, le, ceil, truncate}

  unfoldable pub timeout_milliseconds : F → ℕ
  timeout_milliseconds timeout =
      let milliseconds = ceil (mul timeout (of_nat 1000)) in
      if le (of_nat max_int) milliseconds then max_int else truncate milliseconds

  -- After the answer of `poll`; `next` is the rest of the loop for the time that remains.
  abbrev pub after_poll : ℕ → (F → Waited) → Poll → Waited
  after_poll deadline next (events invalid) = ready invalid
  after_poll deadline next no_events = gave_up
  after_poll deadline next (poll_failed error) = wait_failed error
  after_poll deadline next (signal now) =
      if leb deadline now then gave_up else next (seconds_of (deadline - now))

  -- The poll loop up to a deadline, with the time that remains. `poll` is called with it in milliseconds;
  -- `waiting` if the loop has not ended with the listed answers.
  unfoldable pub wait : List (ℕ → Poll) → F → ℕ → Waited
  unfolding timeout_milliseconds
  wait [] remaining deadline = waiting
  wait (answer ∷ rest) remaining deadline =
      after_poll deadline (λ left. wait rest left deadline)
        (answer (timeout_milliseconds remaining))

-- The result of a call of `receive`: its bytes (none for a timeout, a shutdown or an empty datagram), an
-- exception, or still waiting.
pub data Received : Type 0 where
  received : List ℕ → Received
  raised : Exception → Received
  pending : Received

abbrev pub taken : RecvResult → Received
taken (datagram bytes) = received bytes
taken recv_signal = received []
taken (recv_failed error) = raised (runtime_error (concat "failed to receive UDP record: " error))

-- `after` is the transport when the wait has ended.
unfoldable pub after_wait : Transport → Waited → RecvResult → Received
after_wait after gave_up result = received []
after_wait after waiting result = pending
after_wait after (wait_failed error) result =
    raised (runtime_error (concat "failed to wait for UDP record: " error))
after_wait after (ready invalid) result =
    if after.shutdown_requested
    then received []
    else if invalid
    then raised (runtime_error "UDP socket became invalid")
    else taken result

module _ {F : Type 0} ⦃d : Double F⦄ where
  abbrev pub waited : Transport → F → List (ℕ → Poll) → RecvResult → Result ℕ → Received
  waited after timeout polls result (throws e) = raised e
  waited after timeout polls result (ok deadline) =
      after_wait after (wait polls timeout deadline) result

  unfoldable pub receive : Transport → Transport → ℕ → F → List (ℕ → Poll) → RecvResult → Received
  unfolding after_wait wait
  receive before after now timeout polls result = elim before.socket [
    | none ↦ raised (runtime_error "UDP socket is not connected")
    | some fd ↦
        if before.shutdown_requested
        then received []
        else waited after timeout polls result (checked_deadline now timeout)
  ]

unfoldable pub shutdown : Transport → Transport
shutdown t = record t { shutdown_requested = true }

unfoldable pub close : Transport → Transport
close t = record t { socket = none; shutdown_requested = true }
