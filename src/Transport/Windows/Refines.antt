-- ===== src/Transport/Windows/Refines.antt =====
-- The socket of core/src/detail/udp_transport_windows.cpp against that of udp_transport_posix.cpp: what the
-- client sees of the two.
use py_net_ft.Common.{
  not, All, ℕ, String, ◌≡◌, refl, Bool, true, false, ◌||◌, Option, none, some, List, [], ◌∷◌, ◌==◌,
  leb, if◌then◌else◌, arith,
}
use py_net_ft.Exception.{Exception, Result, ok, throws, runtime_error}
use py_net_ft.Double.{Double}
use py_net_ft.Time.{checked_deadline}
use py_net_ft.Transport
use py_net_ft.Transport.{Transport, Received, received, raised, pending, socket_error}
use py_net_ft.Transport.Windows
use py_net_ft.Transport.Windows.{
  Attempt, no_socket, no_connection, connected, Resolution, unresolved, addresses, SendResult,
  sent_bytes, send_failed, Events, Poll, events, no_events, poll_failed, Slice, RecvResult,
  datagram, recv_failed, interrupted, socket_shutdown, poll_milliseconds, winsock_error, Waited,
  gave_up, ready, wait_failed, waiting, host_unreachable,
}

-- What POSIX would answer in place of WinSock, with no text.
abbrev pub as_attempt : Attempt → Transport.Attempt
as_attempt (no_socket error) = Transport.no_socket ""
as_attempt (no_connection error) = Transport.no_connection ""
as_attempt (connected socket) = Transport.connected socket

abbrev pub as_attempts : List Attempt → List Transport.Attempt
as_attempts [] = []
as_attempts (a ∷ rest) = as_attempt a ∷ as_attempts rest

abbrev pub as_resolution : Resolution → Transport.Resolution
as_resolution (unresolved error) = Transport.unresolved ""
as_resolution (addresses attempts) = Transport.addresses "" (as_attempts attempts)

abbrev pub as_send : SendResult → Transport.SendResult
as_send (sent_bytes n) = Transport.sent_bytes n
as_send (send_failed error) = Transport.send_failed ""

-- WinSock answers what POSIX has a like answer for: no event but a datagram or POLLNVAL, since `receive` of
-- POSIX goes on to `recv` with POLLERR and POLLHUP and that of Windows throws; and no failed `recv` that
-- only Windows passes over, after a shutdown or with `WSAESHUTDOWN`.
abbrev pub is_alike : Poll → Bool
is_alike (events e) = not (e.error || e.hung_up)
is_alike no_events = true
is_alike (poll_failed error) = true

abbrev pub is_alike_recv : RecvResult → Bool
is_alike_recv (datagram bytes) = true
is_alike_recv (recv_failed error asked) = not (asked || error == socket_shutdown)

abbrev pub IsAlikeSlice : Slice → Type 0
IsAlikeSlice s = (milliseconds : ℕ) → is_alike (s.answer milliseconds) ≡ true

-- Whatever the timeout in milliseconds.
abbrev pub always : Transport.Poll → ℕ → Transport.Poll
always p milliseconds = p

abbrev pub as_poll : ℕ → List (ℕ → Transport.Poll) → Poll → List (ℕ → Transport.Poll)
as_poll later rest (events e) = always (Transport.events e.invalid) ∷ []
as_poll later rest no_events = always (Transport.signal later) ∷ rest
as_poll later rest (poll_failed error) =
    if error == interrupted
    then always Transport.no_events ∷ []
    else always (Transport.poll_failed "") ∷ []

-- A shutdown that a slice begins with is a wait without an event.
abbrev pub as_polls : (F : Type 0) ⦃d : Double F⦄ → ℕ → List Slice → List (ℕ → Transport.Poll)
as_polls F deadline [] = []
as_polls F deadline (s ∷ slices) =
    let rest = as_polls F deadline slices in
    if s.shutdown_requested
    then always Transport.no_events ∷ []
    else as_poll s.later rest (s.answer (poll_milliseconds F deadline s.now))

abbrev pub as_polls_up_to :
    (F : Type 0) ⦃d : Double F⦄ → Result ℕ → List Slice → List (ℕ → Transport.Poll)
as_polls_up_to F (throws e) slices = []
as_polls_up_to F (ok deadline) slices = as_polls F deadline slices

abbrev pub as_recv : RecvResult → Transport.RecvResult
as_recv (datagram bytes) = Transport.datagram bytes
as_recv (recv_failed error asked) =
    if error == interrupted then Transport.recv_signal else Transport.recv_failed ""

-- A result without the text of its `std::runtime_error`.
abbrev pub untold : Exception → Exception
untold (runtime_error message) = runtime_error ""
untold e = e

abbrev pub outline : Result Transport → Result Transport
outline (ok t) = ok t
outline (throws e) = throws (untold e)

abbrev pub received_outline : Received → Received
received_outline (raised e) = raised (untold e)
received_outline r = r

attach_any :
    (t : Transport) (attempts : List Attempt) (error : ℕ) (text : String)
    → outline (Windows.attach t (Windows.connect_any attempts error))
      ≡ outline (Transport.attach t (Transport.connect_any (as_attempts attempts) text))
unfolding Windows.connect_any Transport.connect_any winsock_error socket_error
attach_any t [] error text = refl
attach_any t (no_socket e ∷ rest) error text = attach_any t rest e ""
attach_any t (no_connection e ∷ rest) error text = attach_any t rest e ""
attach_any t (connected socket ∷ rest) error text = refl

connect-outline :
    (t : Transport) (r : Resolution)
    → outline (Windows.connect t r) ≡ outline (Transport.connect t (as_resolution r))
unfolding Windows.connect Transport.connect
connect-outline t (unresolved error) = refl
connect-outline t (addresses attempts) = attach_any t attempts host_unreachable ""

send-outline :
    (t : Transport) (request : List ℕ) (r : SendResult)
    → outline (Windows.send t request r) ≡ outline (Transport.send t request (as_send r))
unfolding Windows.send Transport.send
send-outline t request (sent_bytes n) = ground arith
send-outline t request (send_failed error) = ground arith

-- The two loops wait for the same thing.
Alike : Transport → RecvResult → Waited → Transport.Waited → Type 0
Alike after r v w =
    received_outline (Windows.after_wait after v r)
    ≡ received_outline (Transport.after_wait after w (as_recv r))

both {ℓ κ} :
    {A : Type ℓ} {B : Type κ} (P : A → B → Type 0) (b : Bool) {x y : A} {u v : B}
    → P x u
    → P y v
    → P (if b then x else y) (if b then u else v)
both P true p q = p
both P false p q = q

gave_up_outline : (after : Transport) (r : RecvResult) → Alike after r gave_up Transport.gave_up
unfolding Alike Windows.after_wait Transport.after_wait
gave_up_outline after r = refl

waiting_outline : (after : Transport) (r : RecvResult) → Alike after r waiting Transport.waiting
unfolding Alike Windows.after_wait Transport.after_wait
waiting_outline after r = refl

ready_outline :
    (after : Transport) (e : Events) (r : RecvResult)
    → is_alike (events e) ≡ true
    → is_alike_recv r ≡ true
    → Alike after r (ready e) (Transport.ready e.invalid)
unfolding Alike Windows.after_wait Transport.after_wait winsock_error
ready_outline after e (datagram bytes) p q = ground (arith, p, q)
ready_outline after e (recv_failed error asked) p q = ground (arith, p, q)

failed_outline :
    (after : Transport) (error : ℕ) (r : RecvResult)
    → Alike after r (wait_failed error) (Transport.wait_failed "")
unfolding Alike Windows.after_wait Transport.after_wait winsock_error
failed_outline after error r = refl

module _ (F : Type 0) ⦃d : Double F⦄ where
  -- Whatever time remains.
  abbrev AlikeWhile : Transport → RecvResult → ℕ → Waited → List (ℕ → Transport.Poll) → Type 0
  AlikeWhile after r deadline v polls =
      (left : F) → Alike after r v (Transport.wait polls left deadline)

  poll_outline :
      (after : Transport) (r : RecvResult) (deadline later : ℕ) (p : Poll) (v : Waited)
      (polls : List (ℕ → Transport.Poll))
      → is_alike p ≡ true
      → is_alike_recv r ≡ true
      → AlikeWhile after r deadline v polls
      → AlikeWhile after r deadline (Windows.after_poll deadline later v p) (as_poll later polls p)
  unfolding Transport.wait
  poll_outline after r deadline later (events e) v polls p q h left = ready_outline after e r p q
  poll_outline after r deadline later no_events v polls p q h left =
      both (Alike after r) (leb deadline later) (gave_up_outline after r) (h _)
  poll_outline after r deadline later (poll_failed error) v polls p q h left =
      both (λ x polls'. Alike after r x (Transport.wait polls' left deadline))
        (error == interrupted) (gave_up_outline after r) (failed_outline after error r)

  wait_outline :
      (after : Transport) (slices : List Slice) (deadline : ℕ) (r : RecvResult)
      → All IsAlikeSlice slices
      → is_alike_recv r ≡ true
      → AlikeWhile after r deadline (Windows.wait F slices deadline) (as_polls F deadline slices)
  unfolding Windows.wait Transport.wait
  wait_outline after [] deadline r a q left = waiting_outline after r
  wait_outline after (s ∷ slices) deadline r a q left =
      both (λ x polls. Alike after r x (Transport.wait polls left deadline)) s.shutdown_requested
        (gave_up_outline after r)
        (poll_outline after r deadline s.later (s.answer (poll_milliseconds F deadline s.now))
          (Windows.wait F slices deadline) (as_polls F deadline slices)
          (a.0 (poll_milliseconds F deadline s.now)) q (wait_outline after slices deadline r a.1 q)
          left)

  waited_outline :
      (after : Transport) (slices : List Slice) (r : RecvResult) (timeout : F) (m : Result ℕ)
      → All IsAlikeSlice slices
      → is_alike_recv r ≡ true
      → received_outline (Windows.waited F after slices r m)
        ≡ received_outline
            (Transport.waited after timeout (as_polls_up_to F m slices) (as_recv r) m)
  unfolding Alike
  waited_outline after slices r timeout (throws e) a q = refl
  waited_outline after slices r timeout (ok deadline) a q =
      wait_outline after slices deadline r a q timeout

open_outline :
    (socket : Option ℕ) (b : Bool) (x y : Received)
    → received_outline x ≡ received_outline y
    → received_outline (elim socket [
      | none ↦ raised (runtime_error "UDP socket is not connected")
      | some _ ↦ if b then received [] else x
    ])
      ≡ received_outline (elim socket [
        | none ↦ raised (runtime_error "UDP socket is not connected")
        | some _ ↦ if b then received [] else y
      ])
open_outline none b x y h = refl
open_outline (some _) true x y h = refl
open_outline (some _) false x y h = h

receive_outline :
    (F : Type 0) ⦃d : Double F⦄ (before after : Transport) (now : ℕ) (timeout : F)
    (slices : List Slice) (r : RecvResult)
    → All IsAlikeSlice slices
    → is_alike_recv r ≡ true
    → received_outline (Windows.receive before after now timeout slices r)
      ≡ received_outline (
          Transport.receive before after now timeout
            (as_polls_up_to F (checked_deadline now timeout) slices)
            (as_recv r))
unfolding Windows.receive Transport.receive
receive_outline F before after now timeout slices r a q =
    let m = checked_deadline now timeout in
    open_outline before.socket before.shutdown_requested (Windows.waited F after slices r m)
      (Transport.waited after timeout (as_polls_up_to F m slices) (as_recv r) m)
      (waited_outline F after slices r timeout m a q)

-- The socket of Windows does what that of POSIX does when the system answers alike, up to the text of its
-- `std::runtime_error`: `connect` and `send` leave the same socket or throw at the same time, and `receive`
-- returns the same bytes, throws or goes on waiting with it; `shutdown` and `close` do the same. Alike means,
-- of POSIX: a slice in which nothing comes before the deadline is a signal, and a shutdown that a slice begins
-- with, or an interrupted wait, is a wait without an event; every other answer is the same. Of WinSock it is
-- asked that no wait ends with POLLERR or POLLHUP, and no `recv` fails after a shutdown or with
-- `WSAESHUTDOWN`, where the two sources differ.
pub windows_refines :
    (F : Type 0) ⦃d : Double F⦄ (t after : Transport) (resolution : Resolution) (request : List ℕ)
    (result : SendResult) (now : ℕ) (timeout : F) (slices : List Slice) (r : RecvResult)
    → All IsAlikeSlice slices
    → is_alike_recv r ≡ true
    → (outline (Windows.connect t resolution)
        ≡ outline (Transport.connect t (as_resolution resolution)))
      × (outline (Windows.send t request result)
          ≡ outline (Transport.send t request (as_send result)))
      × (received_outline (Windows.receive t after now timeout slices r)
          ≡ received_outline (
              Transport.receive t after now timeout
                (as_polls_up_to F (checked_deadline now timeout) slices)
                (as_recv r)))
      × (Windows.shutdown t ≡ Transport.shutdown t)
      × (Windows.close t ≡ Transport.close t)
unfolding Windows.shutdown Transport.shutdown Windows.close Transport.close
windows_refines F t after resolution request result now timeout slices r a q = (
  connect-outline t resolution,
  send-outline t request result,
  receive_outline F t after now timeout slices r a q,
  refl,
  refl,
)
