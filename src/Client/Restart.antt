-- ===== src/Client/Restart.antt =====
-- What `start` of core/src/detail/client_impl.cpp does on its ways out: a second start, a failed creation of
-- the worker thread, and a start that succeeds.
use py_net_ft.Common.{ℕ, ◌≡◌, ◌≢◌, ◌⊎◌, true, false, Option, none, some, inc64, arith}
use py_net_ft.Exception.{Exception, Result, ok, throws}
use py_net_ft.Types.{FaultCode, HealthSnapshot}
use py_net_ft.Types
use py_net_ft.FaultLatch.{is_faulted, publish, is_none}
use py_net_ft.Client.State.{Impl}
use py_net_ft.Client.Lifecycle.{
  StartStep, reaps, started, refused, already_running, start, start_locked, start_reaped, launch,
  prepared, rolled_back, first_sample_ready,
}

-- A latched fault is shown by the snapshot, as `publish` leaves it.
abbrev pub ShowsFault : {F : Type 0} → Impl F → Type 0
ShowsFault s =
    (is_faulted s.fault_latch ≡ false)
    ⊎ ((s.health.state ≡ Types.faulted) × (s.health.fault_code ≡ s.fault_latch))

-- No worker is left to reap, and none is being joined.
pub record IsIdle {F : Type 0} (s : Impl F) : Type 0 where
  pub exited : s.worker_exited ≡ true
  pub not_joining : s.joining ≡ false
  pub no_worker : s.worker ≡ none

-- What the first pass of `start` comes to, where the worker has ended and no thread joins it.
abbrev pub first_step : Option ℕ → StartStep
first_step none = started
first_step (some w) = reaps w

module _ {F : Type 0} where
  publish_again :
      (s : Impl F)
      → ShowsFault s
      → is_none s.fault_latch ≡ false
      → publish FaultCode.none s.fault_latch s.health.last_error s.health
        ≡ record { latch = s.fault_latch; health = s.health; first = true }
  unfolding publish
  publish_again s v n = ground (arith, v)

  rolled_back-prepared :
      (s : Impl F) (callback : Option ℕ) → ShowsFault s → rolled_back s (prepared s callback) ≡ s
  unfolding rolled_back prepared
  rolled_back-prepared s callback v = ground (arith, v, publish_again s v)

  -- Where no worker is left to reap or to join and a latched fault is shown, a `start` whose thread
  -- cannot be created passes the exception on and leaves the client as it was before, member for member,
  -- the previous fault and the delivered sample included.
  pub start_undone :
      (s : Impl F) (self : ℕ) (callback : Option ℕ) (e : Exception)
      → IsIdle s
      → ShowsFault s
      → start s self callback (throws e) ≡ (s, refused e)
  unfolding start start_locked launch
  start_undone s self callback e v w =
      ground (arith, v.exited, v.not_joining, v.no_worker, rolled_back-prepared s callback w)

  -- While the worker runs, no thread joins it and no fault is latched, a start from any thread, the
  -- worker's own included, changes nothing and is refused as already running.
  pub start_while_running :
      (s : Impl F) (self w : ℕ) (callback : Option ℕ) (creation : Result ℕ)
      → s.worker ≡ some w
      → s.worker_exited ≡ false
      → s.joining ≡ false
      → s.fault_latch ≡ FaultCode.none
      → start s self callback creation ≡ (s, refused already_running)
  unfolding start start_locked
  start_while_running s self w callback creation e f g h = ground (arith, e, f, g, h)

  -- When a worker has set `worker_exited_` and no thread joins it, a start whose thread can be created, and
  -- which no other thread comes between, first joins the old worker if its handle is still there, and only
  -- launches at once if it is not; in the end it has launched a new worker: no fault is latched, no sample is
  -- kept, and a wait that begins then is not satisfied at once, as long as the generation does not wrap to
  -- 0.
  pub start_after_exit :
      (s : Impl F) (self thread : ℕ) (callback : Option ℕ)
      → s.worker_exited ≡ true
      → s.joining ≡ false
      → inc64 s.generation ≢ 0
      → let t = (start s self callback (ok thread)).0 in
        ((start_locked s self callback (ok thread)).1 ≡ first_step s.worker)
        × ((start s self callback (ok thread)).1 ≡ started)
        × (t.fault_latch ≡ FaultCode.none)
        × (t.latest ≡ none)
        × (t.worker ≡ some thread)
        × (first_sample_ready t t.generation ≡ false)
  unfolding start start_locked launch prepared start_reaped first_sample_ready
  start_after_exit s self thread callback e f g = ground (arith, e, f, g)
