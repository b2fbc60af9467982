-- ===== src/Bindings/NativeClient.antt =====
-- bindings/python/native_client.hpp and native_client.cpp, without their test hooks.
pub mod Callback
pub mod Built
pub mod Delivery
pub mod Read
pub mod Stop
use py_net_ft.Common.{
  ℕ, String, concat, ◌-◌, ◌/◌, Bool, true, false, ◌&&◌, ◌||◌, not, Option, none, some, List, [],
  ◌∷◌, ◌==◌, if◌then◌else◌,
}
use py_net_ft.Exception.{Exception, Result, ok, throws, invalid_argument, ◌>>=◌, ◌>>◌, require}
use py_net_ft.Double.{Double}
use py_net_ft.Time.{seconds_of, max_ticks, ticks_per_second}
use py_net_ft.Types.{FaultCode, Config, HealthSnapshot, Sample}
use py_net_ft.FaultLatch.{is_faulted}
use py_net_ft.Transport.{SendResult}
use py_net_ft.Client.State.{Impl}
use py_net_ft.Client.Command.{StopStep, stop_locked}
use py_net_ft.Client.Command
use py_net_ft.Client.Lifecycle.{construct, StartStep, started, refused}
use py_net_ft.Client.Lifecycle
use py_net_ft.Bindings.SampleQueue.{
  SampleQueue, new_queue, ReadResult, ReadStatus, timeout, closed, nothing, read_woken, close,
  reset,
}

pub record NativeClient (F : Type 0) : Type 0 where
  pub queue : SampleQueue (Sample F)
  pub client : Impl F
  pub running : Bool

-- The lambda that `start` hands to the core, which pushes each sample into the queue.
abbrev pub queue_callback : ℕ
queue_callback = 1

module _ {F : Type 0} where
  abbrev after_start : NativeClient F → Impl F × StartStep → NativeClient F × StartStep
  after_start n (s, started) = (record n { client = s; running = true }, started)
  after_start n (s, refused e) =
      (record n { client = s; running = false; queue = close n.queue }, refused e)
  after_start n (s, step) = (record n { client = s }, step)

  -- On the thread `self`; the step is that of the core's `start`.
  unfoldable pub start : NativeClient F → ℕ → Result ℕ → NativeClient F × StartStep
  unfolding close reset
  start n self creation =
      let cleared : NativeClient F = record n { running = false; queue = reset (close n.queue) } in
      if n.running && not (is_faulted n.client.fault_latch)
      then (n, started)
      else after_start cleared (Lifecycle.start n.client self (some queue_callback) creation)

  -- Up to the join of the core's worker.
  unfoldable pub stop : NativeClient F → ℕ → SendResult → NativeClient F × StopStep
  unfolding close
  stop n self sent =
      let (s, step) = stop_locked n.client self sent in
      (record n { running = false; queue = close n.queue; client = s }, step)

  unfoldable pub bias :
      NativeClient F → SendResult → SendResult → NativeClient F × Result (Unit {0})
  bias n first second =
      let (s, result) = Command.bias n.client first second in (record n { client = s }, result)

  unfoldable pub health : NativeClient F → ℕ → NativeClient F × HealthSnapshot F
  health n now =
      let (s, snapshot) = Command.health n.client now in (record n { client = s }, snapshot)

  abbrev pub latest_sample : NativeClient F → Option (Sample F)
  latest_sample n = n.client.latest

  abbrev pub fault_code : NativeClient F → FaultCode
  fault_code n = n.client.fault_latch

  -- `faulted`, and `faulted_for_read`.
  abbrev pub faulted : NativeClient F → Bool
  faulted n = is_faulted (fault_code n)

  abbrev pub queue_dropped_count : NativeClient F → ℕ
  queue_dropped_count n = n.queue.dropped_count

module _ {F : Type 0} ⦃d : Double F⦄ where
  -- The constructor: the queue, and then the core's client.
  unfoldable pub new_native : Option ℕ → Config F → (ℕ → ℕ) → ℕ → Result (NativeClient F)
  unfolding new_queue construct
  new_native winsock config clock queue_size = do
    queue ← new_queue queue_size
    client ← construct winsock config clock
    ok (record { queue = queue; client = client; running = false })

-- What a pass of the loop of `read` meets: the flags at its beginning, the queue when the wait ends, the
-- flags after a timeout, and the clock then.
pub record ReadRound (F : Type 0) : Type 0 where
  pub running : Bool
  pub faulted : Bool
  pub queue : SampleQueue (Sample F)
  pub still_running : Bool
  pub faulted_later : Bool
  pub now : ℕ

-- `read` has returned, with the queue that it leaves, or the loop goes on.
pub data ReadStep (F : Type 0) : Type 0 where
  returns : ReadResult (Sample F) → SampleQueue (Sample F) → ReadStep F
  again : ReadStep F

pub record WaitRound : Type 0 where
  pub running : Bool
  pub faulted : Bool
  pub generation : ℕ
  pub received : Bool
  pub generation_later : ℕ
  pub now : ℕ

module _ {F : Type 0} ⦃d : Double F⦄ where
  open d use {of_nat, sub, div, lt, le, is_finite, widen, long_of_nat, long_div, long_lt}

  unfoldable pub require_representable_timeout : F → String → Result (Unit {0})
  require_representable_timeout seconds name = do
    require (not (not (is_finite seconds) || lt seconds (of_nat 0)))
        (invalid_argument (concat name " must be finite and non-negative"))
    require
        (not (
          long_lt (long_div (long_of_nat max_ticks) (long_of_nat ticks_per_second))
            (widen seconds)))
        (invalid_argument (concat name " exceeds the native clock range"))

  -- 50 milliseconds.
  abbrev read_slice : F
  read_slice = div (of_nat 50) (of_nat 1000)

  -- How long a pass waits at most: `min(slice, max(0, timeout - elapsed))`.
  unfoldable pub wait_duration : F → ℕ → F
  wait_duration limit elapsed =
      let left = sub limit (seconds_of elapsed) in
      let rest = if lt (of_nat 0) left then left else of_nat 0 in
      if lt rest read_slice then rest else read_slice

  abbrev pub expired : Option F → ℕ → Bool
  expired none elapsed = false
  expired (some limit) elapsed = le limit (seconds_of elapsed)

  abbrev pub after_wait :
      Option F → ℕ → ReadRound F → SampleQueue (Sample F) × ReadResult (Sample F) → ReadStep F
  after_wait limit started_at r (q, result) = elim result.status [
    | timeout ↦
        if not r.still_running
        then returns (nothing closed) q
        else if r.faulted_later
        then returns (nothing closed) q
        else if expired limit (r.now - started_at)
        then returns result q
        else again
    | _ ↦ returns result q
  ]

  -- One pass of the loop, for a reader that has captured the queue's generation.
  unfoldable pub read_round : Option F → ℕ → ℕ → ReadRound F → ReadStep F
  unfolding read_woken
  read_round limit generation started_at r =
      if not r.running
      then returns (nothing closed) r.queue
      else if r.faulted
      then returns (nothing closed) r.queue
      else after_wait limit started_at r (read_woken r.queue generation)

  -- `none` where the listed rounds do not end the loop.
  unfoldable pub read_loop :
      List (ReadRound F)
      → Option F
      → ℕ
      → ℕ
      → Option (ReadResult (Sample F) × SampleQueue (Sample F))
  unfolding read_round
  read_loop [] limit generation started_at = none
  read_loop (r ∷ rounds) limit generation started_at =
      elim (read_round limit generation started_at r) [
        | returns result q ↦ some (result, q)
        | again ↦ read_loop rounds limit generation started_at
      ]

  abbrev pub check_timeout : Option F → Result (Unit {0})
  check_timeout none = ok tt
  check_timeout (some seconds) = require_representable_timeout seconds "timeout"

  unfoldable pub read :
      Option F
      → SampleQueue (Sample F)
      → ℕ
      → List (ReadRound F)
      → Result (Option (ReadResult (Sample F) × SampleQueue (Sample F)))
  unfolding read_loop require_representable_timeout
  read limit queue started_at rounds = do
    check_timeout limit
    ok (read_loop rounds limit queue.close_generation started_at)

  -- `wait_for_first_sample`; `received` is what the core's wait returns.
  unfoldable pub wait_loop : List WaitRound → F → ℕ → ℕ → Option Bool
  wait_loop [] limit generation started_at = none
  wait_loop (r ∷ rounds) limit generation started_at =
      let rest = wait_loop rounds limit generation started_at in
      if not r.running || r.faulted || not (r.generation == generation)
      then some false
      else if not (r.generation_later == generation)
      then some false
      else if r.received
      then some true
      else if le limit (seconds_of (r.now - started_at))
      then some false
      else rest

  unfoldable pub wait_for_first_sample :
      F → SampleQueue (Sample F) → ℕ → List WaitRound → Result (Option Bool)
  unfolding wait_loop require_representable_timeout
  wait_for_first_sample limit queue started_at rounds = do
    require_representable_timeout limit "timeout"
    ok (wait_loop rounds limit queue.close_generation started_at)
