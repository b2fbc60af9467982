-- ===== src/Client/Destroyer.antt =====
-- core/src/client.cpp: the destructor of a client, and the thread that stops the clients whose destructor ran
-- on their own worker. A client is known to that thread by its address.
pub mod Handed
use py_net_ft.Common.{
  ℕ, Bool, true, false, ◌&&◌, not, Option, none, some, List, [], ◌∷◌, ◌++◌, ◌==◌, if◌then◌else◌,
}
use py_net_ft.Transport.{SendResult}
use py_net_ft.Client.State.{Impl}
use py_net_ft.Client.Threads.{System, stop_step}

pub record DeferredDestroyer : Type 0 where
  pub pending : List ℕ

unfoldable pub enqueue : DeferredDestroyer → ℕ → DeferredDestroyer
enqueue q address = record { pending = q.pending ++ (address ∷ []) }

-- One pass of the loop of `run`, under its lock: it waits, or goes on to stop the client at an address.
pub data Pass : Type 0 where
  waits : Pass
  takes : ℕ → DeferredDestroyer → Pass

abbrev pub front : List ℕ → Pass
front [] = waits
front (address ∷ rest) = takes address (record { pending = rest })

unfoldable pub run_pass : DeferredDestroyer → Pass
run_pass q = front q.pending

-- What comes to the queue: the destructor of the client at an address, or a pass of the loop that does not
-- wait on, with the addresses that have been taken so far.
pub data Event : Type 0 where
  hands_over : ℕ → Event
  passes : Event

abbrev pub after_pass : List ℕ → DeferredDestroyer → Pass → List ℕ × DeferredDestroyer
after_pass taken q waits = (taken, q)
after_pass taken q (takes address rest) = (taken ++ (address ∷ []), rest)

unfoldable pub run_events : List Event → List ℕ → DeferredDestroyer → List ℕ × DeferredDestroyer
unfolding run_pass enqueue
run_events [] taken q = (taken, q)
run_events (hands_over address ∷ events) taken q = run_events events taken (enqueue q address)
run_events (passes ∷ events) taken q =
    let p = after_pass taken q (run_pass q) in run_events events p.0 p.1

module _ {F : Type 0} where
  unfoldable pub called_from_worker_thread : Impl F → ℕ → Bool
  called_from_worker_thread s self = not s.worker_exited && s.active_worker_id == self

  -- `~Client` on the thread `self`, up to the release of the lock of its `stop`.
  unfoldable pub destroy :
      System F → ℕ → ℕ → SendResult → DeferredDestroyer → System F × DeferredDestroyer
  unfolding called_from_worker_thread stop_step enqueue
  destroy y address self sent q =
      if called_from_worker_thread y.client self
      then (stop_step y self sent, enqueue q address)
      else (stop_step y self sent, q)
