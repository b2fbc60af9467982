-- ===== src/Bindings/Python/Seen.antt =====
-- What Python sees of a sample, and of the health of a client whose worker has ended.
use py_net_ft.Common.{none, ℕ, ◌≡◌, Bool, true, false, List, inl, inr, arith, if◌then◌else◌}
use py_net_ft.Double.{Double}
use py_net_ft.Types.{FaultCode, ClientState, Sample}
use py_net_ft.FaultLatch.{is_faulted}
use py_net_ft.Transport.{SendResult}
use py_net_ft.Client.State.{Impl}
use py_net_ft.Client.Command
use py_net_ft.Client.Worker.{Pass, run}
use py_net_ft.Client.Faults.{IsEnded, run-IsEnded}
use py_net_ft.Bindings.SampleQueue.{SampleQueue}
use py_net_ft.Bindings.NativeClient.{NativeClient, health, faulted, fault_code}
use py_net_ft.Bindings.Python.Views.{
  SampleAttribute, rdt_sequence, ft_sequence, raw_wrench, force, torque, force_unit, torque_unit,
  configuration_revision, received_at_ns, read_sample, state, read_health,
}
use py_net_ft.Bindings.Python.Views.{HealthAttribute}

module _ {F : Type 0} where
  -- The attributes of a sample expose the whole of it: two samples that read alike are the same.
  pub read_sample-ext :
      (x y : Sample F) → ((a : SampleAttribute) → read_sample F a x ≡ read_sample F a y) → x ≡ y
  unfolding read_sample
  read_sample-ext x y h = λ i. record {
    rdt_sequence = h rdt_sequence i;
    ft_sequence = h ft_sequence i;
    status = h SampleAttribute.status i;
    raw_force = (h raw_wrench i).0;
    raw_torque = (h raw_wrench i).1;
    force = h force i;
    torque = h torque i;
    force_unit = h force_unit i;
    torque_unit = h torque_unit i;
    configuration_revision = h configuration_revision i;
    received_at = h received_at_ns i;
  }

module _ {F : Type 0} ⦃d : Double F⦄ where
  shown_state :
      (s : Impl F) (now : ℕ)
      → IsEnded s
      → ((Command.health s now).1.state
          ≡ (if is_faulted s.fault_latch then ClientState.faulted else ClientState.stopped))
        × ((Command.health s now).1.fault_code ≡ s.fault_latch)
        × ((Command.health s now).0.session_started ≡ false)
        × ((Command.health s now).0.transport.socket ≡ none)
  unfolding Command.health
  shown_state s now w = elim w.settled [
    | inl (latch, shown) ↦ ground (arith, latch, shown, w.no_session, w.no_socket)
    | inr shown ↦ ground (arith, shown, w.no_session, w.no_socket)
  ]

  -- When the worker of a client has ended, having begun with no fault latched, then whenever Python reads the
  -- health of the client its state is `FAULTED` if the client is faulted and `STOPPED` if not, and its fault
  -- code is that of the client; and no session and no socket is left.
  pub health_after_run :
      (queue : SampleQueue (Sample F)) (running : Bool) (s : Impl F) (passes : List (Pass F))
      (a : SendResult) (now : ℕ)
      → s.fault_latch ≡ FaultCode.none
      → (run s passes a).1 ≡ true
      → let n : NativeClient F = record {
        queue = queue;
        client = (run s passes a).0;
        running = running;
      } in
        let (m, h) = health n now in
        (read_health state h ≡ (if faulted n then ClientState.faulted else ClientState.stopped))
        × (read_health HealthAttribute.fault_code h ≡ fault_code n)
        × (m.client.session_started ≡ false)
        × (m.client.transport.socket ≡ none)
  unfolding health read_health
  health_after_run queue running s passes a now e f =
      shown_state (run s passes a).0 now (run-IsEnded s passes a e f)
