-- ===== src/Bindings/NativeClient/Built.antt =====
-- The client that the constructor of bindings/python/native_client.cpp makes: it begins where the theorems on runs,
-- on deliveries and on the queue begin.
use py_net_ft.Common.{Option, [], ℕ, ◌≡◌, refl, true, false, none, if◌then◌else◌, arith, ◌==◌}
use py_net_ft.Exception.{ok, throws, invalid_argument, bind_ok, then_ok, ok_inj}
use py_net_ft.Common.{subst, Bool}
use py_net_ft.Double.{Double}
use py_net_ft.Types.{FaultCode, Config, Sample}
use py_net_ft.Types.Validate.{validate_config}
use py_net_ft.Types.Validate.Usable.{IsUsable, validate_config-IsUsable}
use py_net_ft.Client.State.{Impl}
use py_net_ft.Transport.Windows.{new_runtime}
use py_net_ft.Client.Lifecycle.{construct}
use py_net_ft.Client.Counters.{IsCounted}
use py_net_ft.Client.Calibrated.{IsCalibrated}
use py_net_ft.Bindings.SampleQueue.{SampleQueue, new_queue, fresh_queue}
use py_net_ft.Bindings.SampleQueue.Fifo.{IsBounded}
use py_net_ft.Bindings.NativeClient.{NativeClient, new_native}

module _ {F : Type 0} ⦃d : Double F⦄ where
  -- The invariants that a client begins with.
  pub record IsBuilt (c : Config F) (size : ℕ) (n : NativeClient F) : Type 0 where
    pub usable : IsUsable c
    pub not_running : n.running ≡ false
    pub queue_bounded : IsBounded n.queue
    pub capacity_eq : n.queue.capacity ≡ size
    pub queue_empty : n.queue.samples ≡ []
    pub queue_open : n.queue.closed ≡ false
    pub nothing_dropped : n.queue.dropped_count ≡ 0
    pub calibrated : IsCalibrated c n.client
    pub counted : IsCounted n.client.health
    pub no_fault : n.client.fault_latch ≡ FaultCode.none
    pub no_worker : n.client.worker ≡ none

  fresh_queue-IsBounded :
      (size : ℕ) → (size == 0) ≡ false → IsBounded (fresh_queue {A = Sample F} size)
  fresh_queue-IsBounded size e = record { capacity_pos = ground arith; length_le = omega arith }

  new_queue_ok :
      (size : ℕ) (q : SampleQueue (Sample F))
      → new_queue size ≡ ok q
      → ((size == 0) ≡ false) × (fresh_queue size ≡ q)
  unfolding new_queue
  new_queue_ok size q e = go (size == 0) e
    where
      go :
          (b : Bool)
          → (if b
              then throws (invalid_argument "sample queue capacity must be greater than zero")
              else ok (fresh_queue size))
            ≡ ok q
          → (b ≡ false) × (fresh_queue size ≡ q)
      go true p = ground arith
      go false p = (refl, ok_inj _ q p)

  -- A client that is constructed has a usable configuration, an open, empty queue of the size asked for, no
  -- worker and no fault, counters that agree, and no unsafe calibration and no bad sample to show.
  pub new_native-IsBuilt :
      (winsock : Option ℕ) (c : Config F) (clock : ℕ → ℕ) (size : ℕ) (n : NativeClient F)
      → new_native winsock c clock size ≡ ok n
      → IsBuilt c size n
  unfolding new_native construct
  new_native-IsBuilt winsock c clock size n e =
      let (q, eq, e1) = bind_ok (new_queue size) _ n e in
      let (s, es, e2) = bind_ok (construct winsock c clock) _ n e1 in
      let (_, started) = then_ok (new_runtime winsock) _ s es in
      let (v, es') = then_ok (validate_config c clock) _ s started in
      let (w, fresh) = new_queue_ok size q eq in
      subst (IsBuilt c size) (ok_inj _ n e2) (
        subst
          (λ (x : SampleQueue (Sample F)).
            IsBuilt c size (record { queue = x; client = s; running = false }))
          fresh
          (subst
            (λ (x : Impl F).
              IsBuilt c size (record { queue = fresh_queue size; client = x; running = false }))
            (ok_inj _ s es')
            (record {
              usable = validate_config-IsUsable c clock v;
              not_running = refl;
              queue_bounded = fresh_queue-IsBounded size w;
              capacity_eq = refl;
              queue_empty = refl;
              queue_open = refl;
              nothing_dropped = refl;
              calibrated = record { config_eq = refl; configuration_safe = tt; latest_good = tt };
              counted = ground arith;
              no_fault = refl;
              no_worker = refl;
            })))
