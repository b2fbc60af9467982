-- ===== src/Client/Threads.antt =====
-- The threads of a client of core/src/detail/client_impl.cpp: `start` and `stop` from any of them, the worker
-- in its loop and on its way out of `run`, and the joins. A step is what one thread does under its locks.
pub mod Kept
pub mod Phases
pub mod Started
pub mod Halted
pub mod Ended
pub mod Alone
pub mod Idle
use py_net_ft.Common.{
  ◌||◌, ℕ, String, ◌≡◌, Bool, true, false, Option, none, some, List, [], ◌∷◌, ◌==◌, if◌then◌else◌,
}
use py_net_ft.Exception.{Exception, Result, ok, throws}
use py_net_ft.Double.{Double}
use py_net_ft.Protocol.{RawRecord}
use py_net_ft.Types.{FaultCode, Config, SensorConfiguration}
use py_net_ft.Types
use py_net_ft.FaultLatch.{is_faulted}
use py_net_ft.Transport.{Transport, SendResult}
use py_net_ft.Client.State.{Impl, new_impl, apply_configuration}
use py_net_ft.Client.Command.{
  StopStep, returned, joins, set_state, close_session, stop_locked, stop_joined, bias, health,
}
use py_net_ft.Client.Record.{CallbackResult, handle_record}
use py_net_ft.Client.Session.{count_timeout, mark_malformed, reset_trackers}
use py_net_ft.Client.Worker.{set_fault, back_off}
use py_net_ft.Client.Lifecycle.{
  StartStep, started, refused, reaps, start_locked, start_reaped, Creation,
}

-- Whose join it is: that of a `start` that reaps, or that of a `stop`.
pub data Joiner : Type 0 where
  starting stopping : Joiner

-- A client and its threads: the workers in the loop of `run`, those that have set `worker_exited_` and have
-- not ended, and the joins that are waited for.
pub record System (F : Type 0) : Type 0 where
  pub client : Impl F
  pub looping : List ℕ
  pub leaving : List ℕ
  pub pending_joins : List (Joiner × ℕ)

abbrev pub has : ℕ → List ℕ → Bool
has t [] = false
has t (u ∷ us) = if t == u then true else has t us

abbrev pub without : ℕ → List ℕ → List ℕ
without t [] = []
without t (u ∷ us) = let rest = without t us in if t == u then rest else u ∷ rest

abbrev pub has_join : ℕ → List (Joiner × ℕ) → Option Joiner
has_join t [] = none
has_join t ((k, u) ∷ us) = if t == u then some k else has_join t us

abbrev pub without_join : ℕ → List (Joiner × ℕ) → List (Joiner × ℕ)
without_join t [] = []
without_join t ((k, u) ∷ us) =
    let rest = without_join t us in if t == u then rest else (k, u) ∷ rest

-- What the worker does to the client in its loop, between two releases of its locks.
pub data Work (F : Type 0) : Type 0 where
  configures : SensorConfiguration F → Work F
  -- the socket is open, or the request is sent
  transports : Transport → (session_started : Bool) → Work F
  resets : Work F
  handles : RawRecord → (received_at : ℕ) → CallbackResult → Work F
  counts_malformed : Work F
  times_out : Work F
  closes : SendResult → Work F
  faults : FaultCode → String → Work F
  backs_off : String → Work F

module _ {F : Type 0} where
  abbrev pub new_system : Config F → System F
  new_system c = record { client = new_impl c; looping = []; leaving = []; pending_joins = [] }

  abbrev pub after_start : System F → Creation → Impl F × StartStep → System F
  after_start y (ok t) (s, started) = record y { client = s; looping = t ∷ y.looping }
  after_start y (throws e) (s, started) = record y { client = s }
  after_start y creation (s, refused e) = record y { client = s }
  after_start y creation (s, StartStep.blocked) = record y { client = s }
  after_start y creation (s, reaps w) = record y {
    client = s;
    pending_joins = (starting, w) ∷ y.pending_joins;
  }

  -- One pass of the loop of `start` on the thread `self`, up to the release of the lock.
  unfoldable pub start_step : System F → ℕ → Option ℕ → Result ℕ → System F
  start_step y self callback creation =
      after_start y creation (start_locked y.client self callback creation)

  abbrev pub after_stop : System F → Impl F × StopStep → System F
  after_stop y (s, returned) = record y { client = s }
  after_stop y (s, StopStep.blocked) = record y { client = s }
  after_stop y (s, joins w) = record y {
    client = s;
    pending_joins = (stopping, w) ∷ y.pending_joins;
  }

  -- The same for `stop`.
  unfoldable pub stop_step : System F → ℕ → SendResult → System F
  stop_step y self sent = after_stop y (stop_locked y.client self sent)

  abbrev pub joined_client : Joiner → Impl F → Impl F
  joined_client starting s = start_reaped s
  joined_client stopping s = stop_joined s

  -- A join has come back: the rest of `start`, or of `stop`, under the lock.
  unfoldable pub join_step : System F → Joiner → ℕ → System F
  join_step y k w = record y {
    client = joined_client k y.client;
    pending_joins = without_join w y.pending_joins;
  }

  -- `finish_session` up to the store of `worker_exited_`, which is made with no lock.
  unfoldable pub leave : Impl F → SendResult → Impl F
  leave s sent = record (close_session s sent) { worker_exited = true }

  -- The rest of `finish_session`.
  unfoldable pub show_stopped : Impl F → Impl F
  show_stopped s = if is_faulted s.fault_latch then s else set_state Types.stopped s

  -- On every way out of its loop and of its handlers the worker has been asked to stop, or is faulted.
  abbrev pub may_leave : Impl F → Bool
  may_leave s = s.stopping || is_faulted s.fault_latch

  unfoldable pub leave_step : System F → ℕ → SendResult → System F
  leave_step y w sent = record y {
    client = leave y.client sent;
    looping = without w y.looping;
    leaving = w ∷ y.leaving;
  }

  unfoldable pub end_step : System F → ℕ → System F
  end_step y w = record y { client = show_stopped y.client; leaving = without w y.leaving }

module _ {F : Type 0} ⦃d : Double F⦄ where
  unfoldable pub work : Impl F → Work F → Impl F
  work s (configures c) = apply_configuration s c
  work s (transports t begun) = record s { transport = t; session_started = begun }
  work s resets = reset_trackers s
  work s (handles r at result) = (handle_record s r at [] result).0
  work s counts_malformed = mark_malformed s
  work s times_out = count_timeout s
  work s (closes sent) = close_session s sent
  work s (faults code message) = set_fault s code message
  work s (backs_off message) = back_off s message

  -- A thread calls `start` and `stop` when it is no worker, or from the callback, which runs in the loop;
  -- a join comes back once its thread has ended; and the worker leaves its loop only when it may.
  pub data Step (y : System F) : System F → Type 0 where
    starts :
        (self : ℕ) (callback : Option ℕ) (creation : Result ℕ)
        → has self y.leaving ≡ false
        → Step y (start_step y self callback creation)
    stops :
        (self : ℕ) (sent : SendResult) → has self y.leaving ≡ false → Step y (stop_step y self sent)
    biases :
        (first second : SendResult) → Step y (record y { client = (bias y.client first second).0 })
    reads_health : (now : ℕ) → Step y (record y { client = (health y.client now).0 })
    joins_worker :
        (k : Joiner) (w : ℕ)
        → has_join w y.pending_joins ≡ some k
        → has w y.looping ≡ false
        → has w y.leaving ≡ false
        → Step y (join_step y k w)
    works :
        (w : ℕ) (m : Work F)
        → has w y.looping ≡ true
        → Step y (record y { client = work y.client m })
    leaves :
        (w : ℕ) (sent : SendResult)
        → has w y.looping ≡ true
        → may_leave y.client ≡ true
        → Step y (leave_step y w sent)
    ends : (w : ℕ) → has w y.leaving ≡ true → Step y (end_step y w)

  pub data Reachable : System F → Type 0 where
    initially : (c : Config F) → Reachable (new_system c)
    next : {y z : System F} → Reachable y → Step y z → Reachable z

  pub data Steps : System F → System F → Type 0 where
    done : {y : System F} → Steps y y
    then : {y z x : System F} → Step y z → Steps z x → Steps y x
