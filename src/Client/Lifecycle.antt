-- ===== src/Client/Lifecycle.antt =====
-- The constructor, `start` and `wait_for_first_sample` of core/src/detail/client_impl.cpp, and `start` as the
-- sequence of its parts. The part of `start` under the lifecycle lock is one step.
use py_net_ft.Common.{
  ℕ, Bool, true, false, ◌&&◌, ◌||◌, not, Option, none, some, [], ◌==◌, if◌then◌else◌, inc64,
}
use py_net_ft.Exception.{Exception, Result, ok, throws, logic_error, ◌>>=◌, ◌>>◌}
use py_net_ft.Double.{Double}
use py_net_ft.Time.{checked_deadline}
use py_net_ft.Types.{FaultCode, Config, connecting}
use py_net_ft.FaultLatch
use py_net_ft.FaultLatch.{publish, is_none, is_faulted}
use py_net_ft.Types.Validate.{validate_config}
use py_net_ft.Client.State.{Impl, new_impl}
use py_net_ft.Transport.Windows.{new_runtime}

-- What the creation of the worker thread gives: its id, or an exception.
abbrev pub Creation : Type 0
Creation = Result ℕ

pub data StartStep : Type 0 where
  started : StartStep
  refused : Exception → StartStep
  -- it waits on the condition variable of the life cycle, and begins again
  blocked : StartStep
  -- it joins this thread with no lock held, and begins again
  reaps : ℕ → StartStep

abbrev pub already_running : Exception
already_running = logic_error "client is already running"

module _ {F : Type 0} where
  -- The state that a new worker finds.
  unfoldable pub prepared : Impl F → Option ℕ → Impl F
  prepared s callback = record s {
    last_delivery_at = 0;
    fault_latch = FaultLatch.reset;
    health = record s.health {
      state = connecting;
      fault_code = FaultCode.none;
      last_error = "";
      receive_rate_hz = 0;
      delivery_rate_hz = 0;
    };
    latest = none;
    last_record_at = 0;
    generation = inc64 s.generation;
    delivered_generation = 0;
    receive_times = [];
    delivery_times = [];
    consecutive_malformed = 0;
    stopping = false;
    worker_exited = false;
    callback = callback;
  }

  -- The handler: every saved member is put back, and a previous fault is published again.
  unfoldable pub rolled_back : Impl F → Impl F → Impl F
  rolled_back s now =
      let back : Impl F = record now {
        stopping = s.stopping;
        worker_exited = s.worker_exited;
        callback = s.callback;
        last_delivery_at = s.last_delivery_at;
        health = s.health;
        latest = s.latest;
        last_record_at = s.last_record_at;
        generation = s.generation;
        delivered_generation = s.delivered_generation;
        receive_times = s.receive_times;
        delivery_times = s.delivery_times;
        consecutive_malformed = s.consecutive_malformed;
        fault_latch = FaultLatch.reset;
      } in
      let p = publish back.fault_latch s.fault_latch s.health.last_error back.health in
      if is_none s.fault_latch
      then back
      else record back { fault_latch = p.latch; health = p.health }

  abbrev launched : Impl F → Impl F → Creation → Impl F × StartStep
  launched s now (ok thread) =
      (record now { worker = some thread; active_worker_id = thread }, started)
  launched s now (throws e) = (rolled_back s now, refused e)

  unfoldable pub launch : Impl F → Option ℕ → Creation → Impl F × StartStep
  unfolding prepared rolled_back
  launch s callback creation = launched s (prepared s callback) creation

  -- One pass of the loop of `start` on the thread `self`, up to the release of the lock.
  unfoldable pub start_locked : Impl F → ℕ → Option ℕ → Creation → Impl F × StartStep
  unfolding launch
  start_locked s self callback creation =
      if not s.worker_exited && s.active_worker_id == self
      then (s, refused already_running)
      else if s.joining
      then (s, blocked)
      else elim s.worker [
        | none ↦ launch s callback creation
        | some w ↦
            if s.worker_exited
            then (record s { joining = true; worker = none }, reaps w)
            else if is_faulted s.fault_latch
            then (s, blocked)
            else (s, refused already_running)
      ]

  -- After the join of the old worker.
  unfoldable pub start_reaped : Impl F → Impl F
  start_reaped s = record s { active_worker_id = 0; joining = false }

  abbrev start_again : ℕ → Option ℕ → Creation → Impl F × StartStep → Impl F × StartStep
  start_again self callback creation (s, reaps w) =
      start_locked (start_reaped s) self callback creation
  start_again self callback creation (s, step) = (s, step)

  -- `start` where no other thread comes in between.
  unfoldable pub start : Impl F → ℕ → Option ℕ → Creation → Impl F × StartStep
  unfolding start_locked start_reaped
  start s self callback creation =
      start_again self callback creation (start_locked s self callback creation)

  -- The condition that `wait_for_first_sample` waits for.
  unfoldable pub first_sample_ready : Impl F → ℕ → Bool
  first_sample_ready s captured =
      not (s.generation == captured)
      || s.delivered_generation == captured
      || s.stopping
      || is_faulted s.fault_latch

  unfoldable pub first_sample_result : Impl F → ℕ → Bool
  first_sample_result s captured = s.generation == captured && s.delivered_generation == captured

module _ {F : Type 0} ⦃d : Double F⦄ where
  -- The constructor: first its members, of which only the transport may fail, with the answer of WinSock on
  -- Windows; `clock` gives the readings that `validate` takes.
  unfoldable pub construct : Option ℕ → Config F → (ℕ → ℕ) → Result (Impl F)
  unfolding validate_config new_runtime
  construct winsock config clock = do
    new_runtime winsock
    validate_config config clock
    ok (new_impl config)

  -- `woken` is the client when the wait ends, by its condition or by the deadline.
  unfoldable pub wait_for_first_sample : Impl F → ℕ → F → Impl F → Result Bool
  unfolding first_sample_result
  wait_for_first_sample s now timeout woken = do
    _ ← checked_deadline now timeout
    ok (if s.generation == 0 then false else first_sample_result woken s.generation)
