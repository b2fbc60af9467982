-- ===== src/Transport/Windows.antt =====
-- core/src/detail/udp_transport_windows.cpp: the UDP socket of Windows, with the state and the environment of
-- the POSIX one where they are alike. WinSock answers with codes; its functions are arguments.
pub mod Waits
pub mod Refines
use py_net_ft.Common.{
  ℕ, String, concat, ◌++◌, ◌-◌, ◌^◌, Bool, true, false, not, ◌||◌, Option, none, some, List, [],
  ◌∷◌, ◌==◌, leb, ltb, min, if◌then◌else◌, length,
}
use py_net_ft.Common.Int.{ℤ, pos}
use py_net_ft.Common.Decimal.{decimal}
use py_net_ft.Exception.{Exception, Result, ok, throws, runtime_error, require}
use py_net_ft.Double.{Double}
use py_net_ft.Time.{checked_deadline, checked_duration, seconds_of}
use py_net_ft.Transport.{Transport, Received, received, raised, pending}

unfoldable pub winsock_error : String → ℕ → Exception
winsock_error operation error =
    runtime_error (concat operation (concat " (WinSock error " (concat (decimal (pos error)) ")")))

-- `WSAEINTR`, `WSAENOTSOCK`, `WSAECONNRESET`, `WSAESHUTDOWN` and `WSAEHOSTUNREACH`.
abbrev pub interrupted : ℕ
interrupted = 10004

abbrev pub not_socket : ℕ
not_socket = 10038

abbrev pub connection_reset : ℕ
connection_reset = 10054

abbrev pub socket_shutdown : ℕ
socket_shutdown = 10058

abbrev pub host_unreachable : ℕ
host_unreachable = 10065

-- What became of one address: no socket, no connection, or a connected socket.
pub data Attempt : Type 0 where
  no_socket : ℕ → Attempt
  no_connection : ℕ → Attempt
  connected : ℕ → Attempt

pub data Resolution : Type 0 where
  unresolved : ℕ → Resolution
  addresses : List Attempt → Resolution

pub data SendResult : Type 0 where
  sent_bytes : ℕ → SendResult
  send_failed : ℕ → SendResult

-- The flags of `revents` that are tested, and what `getsockopt` has for the socket: no answer, or a code.
pub record Events : Type 0 where
  pub error : Bool
  pub hung_up : Bool
  pub invalid : Bool
  pub pending_error : Option ℕ

pub data Poll : Type 0 where
  events : Events → Poll
  no_events : Poll
  poll_failed : ℕ → Poll

-- One pass of the loop of `receive`: whether a shutdown has been asked for, the clock, the answer of
-- `WSAPoll` to a timeout in milliseconds, and the clock after it.
pub record Slice : Type 0 where
  pub shutdown_requested : Bool
  pub now : ℕ
  pub answer : ℕ → Poll
  pub later : ℕ

-- `failed` also says whether a shutdown has been asked for by then.
pub data RecvResult : Type 0 where
  datagram : List ℕ → RecvResult
  recv_failed : ℕ → (shutdown_requested : Bool) → RecvResult

unfoldable pub connect_any : List Attempt → ℕ → Option ℕ × ℕ
connect_any [] last_error = (none, last_error)
connect_any (no_socket error ∷ rest) last_error = connect_any rest error
connect_any (no_connection error ∷ rest) last_error = connect_any rest error
connect_any (connected socket ∷ rest) last_error = (some socket, last_error)

abbrev pub attach : Transport → Option ℕ × ℕ → Result Transport
attach t (none, error) = throws (winsock_error "failed to connect UDP socket" error)
attach t (some socket, error) = ok (record t { socket = some socket; shutdown_requested = false })

unfoldable pub connect : Transport → Resolution → Result Transport
unfolding winsock_error connect_any
connect t (unresolved error) = throws (winsock_error "failed to resolve sensor" error)
connect t (addresses attempts) = attach t (connect_any attempts host_unreachable)

abbrev pub sending : Transport → List ℕ → SendResult → Result Transport
sending t request (send_failed error) = throws (winsock_error "failed to send UDP request" error)
sending t request (sent_bytes n) =
    if n == length request
    then ok (record t { sent = t.sent ++ (request ∷ []) })
    else throws (runtime_error "short UDP request write")

unfoldable pub send : Transport → List ℕ → SendResult → Result Transport
unfolding winsock_error
send t request result = elim t.socket [
  | none ↦ throws (runtime_error "UDP socket is not connected")
  | some socket ↦ sending t request result
]

-- The error of a socket whose wait ended with one of the three flags.
unfoldable pub socket_wait_error : Events → ℕ
socket_wait_error e =
    if e.invalid
    then not_socket
    else if not e.error
    then connection_reset
    else elim e.pending_error [
      | none ↦ connection_reset
      | some code ↦ if code == 0 then connection_reset else code
    ]

-- What the loop ends with.
pub data Waited : Type 0 where
  gave_up : Waited
  ready : Events → Waited
  wait_failed : ℕ → Waited
  waiting : Waited

-- After the answer of `WSAPoll`: the rest of the loop, if it goes on.
abbrev pub after_poll : ℕ → ℕ → Waited → Poll → Waited
after_poll deadline later rest (events e) = ready e
after_poll deadline later rest no_events = if leb deadline later then gave_up else rest
after_poll deadline later rest (poll_failed error) =
    if error == interrupted then gave_up else wait_failed error

abbrev pub taken : RecvResult → Received
taken (datagram bytes) = received bytes
taken (recv_failed error asked) =
    if asked
    then received []
    else if error == interrupted || error == socket_shutdown
    then received []
    else raised (winsock_error "failed to receive UDP record" error)

-- `after` is the transport when the wait has ended.
unfoldable pub after_wait : Transport → Waited → RecvResult → Received
unfolding winsock_error socket_wait_error
after_wait after gave_up result = received []
after_wait after waiting result = pending
after_wait after (wait_failed error) result =
    raised (winsock_error "failed to wait for UDP record" error)
after_wait after (ready e) result =
    if after.shutdown_requested
    then received []
    else if e.error || e.hung_up || e.invalid
    then raised (winsock_error "failed to wait for UDP record" (socket_wait_error e))
    else taken result

-- The greatest `int`, and the interval of the loop.
abbrev pub max_int : ℕ
max_int = 2 ^ 31 - 1

abbrev pub check_interval : ℕ
check_interval = 50

module _ {F : Type 0} ⦃d : Double F⦄ where
  open d use {of_nat, mul, div, lt, le, ceil, truncate}

  unfoldable pub timeout_milliseconds : F → ℕ
  timeout_milliseconds timeout =
      let milliseconds = ceil (mul timeout (of_nat 1000)) in
      if le (of_nat max_int) milliseconds then max_int else truncate milliseconds

  -- `std::min` of the seconds that remain and of the interval, or no time at all.
  unfoldable pub poll_timeout : ℕ → ℕ → F
  poll_timeout deadline now =
      let remaining : F = seconds_of (deadline - now) in
      let interval : F = div (of_nat check_interval) (of_nat 1000) in
      if ltb now deadline then (if lt interval remaining then interval else remaining) else of_nat 0

module _ (F : Type 0) ⦃d : Double F⦄ where
  abbrev pub poll_milliseconds : ℕ → ℕ → ℕ
  poll_milliseconds deadline now =
      min check_interval (timeout_milliseconds (poll_timeout {F = F} deadline now))

  unfoldable pub wait : List Slice → ℕ → Waited
  unfolding timeout_milliseconds poll_timeout
  wait [] deadline = waiting
  wait (s ∷ slices) deadline =
      let rest = wait slices deadline in
      if s.shutdown_requested
      then gave_up
      else after_poll deadline s.later rest (s.answer (poll_milliseconds deadline s.now))

  abbrev pub waited : Transport → List Slice → RecvResult → Result ℕ → Received
  waited after slices result (throws e) = raised e
  waited after slices result (ok deadline) = after_wait after (wait slices deadline) result

module _ {F : Type 0} ⦃d : Double F⦄ where
  unfoldable pub receive : Transport → Transport → ℕ → F → List Slice → RecvResult → Received
  unfolding after_wait wait
  receive before after now timeout slices result = elim before.socket [
    | none ↦ raised (runtime_error "UDP socket is not connected")
    | some socket ↦
        if before.shutdown_requested
        then received []
        else waited F after slices result (checked_deadline now timeout)
  ]

-- `WinSockRuntime`: the answer of `WSAStartup`.
unfoldable pub start_winsock : ℕ → Result (Unit {0})
unfolding winsock_error
start_winsock result = require (result == 0) (winsock_error "failed to initialize WinSock" result)

-- The constructor of the transport: on Windows it starts WinSock, whose answer is given; on POSIX there is
-- none, and it does nothing that can fail.
unfoldable pub new_runtime : Option ℕ → Result (Unit {0})
unfolding start_winsock
new_runtime none = ok tt
new_runtime (some result) = start_winsock result

unfoldable pub shutdown : Transport → Transport
shutdown t = record t { shutdown_requested = true }

unfoldable pub close : Transport → Transport
close t = record t { socket = none; shutdown_requested = true }
