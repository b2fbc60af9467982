-- ===== src/Tests/Threads.antt =====
-- A worker that is started, and runs, is stopped from its own callback, and destroyed there.
use py_net_ft.Common.{ℕ, ◌≡◌, refl, true, none, some, [], ◌∷◌}
use py_net_ft.Exception.{ok}
use py_net_ft.Transport.{sent_bytes}
use py_net_ft.Client.Command.{returned, stop_locked}
use py_net_ft.Client.Lifecycle.{refused, already_running, start_locked, launch}
use py_net_ft.Client.Threads.{
  System, starts, Reachable, initially, next, has, new_system, start_step,
}
use py_net_ft.Client.Threads.Alone.{
  launches_alone, IsOneWorker, Reachable-IsOneWorker, worker_never_waits,
}
use py_net_ft.Client.Destroyer.{DeferredDestroyer}
use py_net_ft.Tests.{exact, config}

abbrev fresh : System ℕ
fresh = new_system config

abbrev running : System ℕ
running = start_step fresh 1 (some 1) (ok 5)

running-Reachable : Reachable running
running-Reachable = next (initially config) (starts 1 (some 1) (ok 5) refl)

worker_loops : has 5 running.looping ≡ true
unfolding start_step start_locked launch
worker_loops = refl

Reachable-IsOneWorker_example : IsOneWorker running
Reachable-IsOneWorker_example = Reachable-IsOneWorker running running-Reachable

worker_never_waits_example :
    ((stop_locked running.client 5 (sent_bytes 8)).1 ≡ returned)
    × (start_locked running.client 5 none (ok 6) ≡ (running.client, refused already_running))
worker_never_waits_example =
    worker_never_waits running 5 (sent_bytes 8) none (ok 6) running-Reachable worker_loops

abbrev pending_one : DeferredDestroyer
pending_one = record { pending = 100 ∷ [] }

launches_alone_example :
    ((new_system config).looping ≡ [])
    × ((new_system config).leaving ≡ [])
    × ((new_system config).pending_joins ≡ [])
launches_alone_example =
    launches_alone (new_system config) 1 (some 1) (ok 5) (initially config)
      (unfold start_locked launch in refl)
