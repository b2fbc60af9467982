-- ===== src/Tests/Python.antt =====
-- The Python module: a configuration made by assignments, a client made of it, and what it shows.
use py_net_ft.Transport.Windows.{new_runtime, start_winsock}
use py_net_ft.Common.{none, ℕ, ◌≡◌, ◌↔◌, ◌+◌, if◌then◌else◌, refl, true, false, some, [], ◌∷◌}
use py_net_ft.Exception.{ok}
use py_net_ft.Types.{Config, ClientState, FaultCode, HealthSnapshot}
use py_net_ft.Types
use py_net_ft.Types.Defaults.{default_config}
use py_net_ft.Status
use py_net_ft.Time.{checked_duration, checked_deadline}
use py_net_ft.Types.Validate.{
  validate_config, is_blank, require_port, require_safe_timeout, require_positive_finite,
  require_safe_count, validate_calibration,
}
use py_net_ft.Transport.{sent_bytes}
use py_net_ft.Client.State.{new_impl}
use py_net_ft.Client.Lifecycle.{construct}
use py_net_ft.Client.Worker.{run}
use py_net_ft.Bindings.SampleQueue.{fresh_queue, new_queue, sample}
use py_net_ft.Bindings.NativeClient.{
  NativeClient, new_native, read, wait_for_first_sample, health, faulted, fault_code,
}
use py_net_ft.Bindings.NativeClient.Built.{IsBuilt, new_native-IsBuilt}
use py_net_ft.Bindings.Python.Enums.{
  enumerator, force_unit_name, torque_unit_name, source_name, policy_name, state_name, fault_name,
  severity_name, read_status_name, force_units, torque_units, sources, policies, states, faults,
  severities, read_statuses,
}
use py_net_ft.Bindings.Python.Named.{enumerators_iff}
use py_net_ft.Bindings.Python.Config.{
  assign_config, sensor_host, rdt_port, config_attributes, read_config,
}
use py_net_ft.Bindings.Python.Raises.{RaisesValidation, calls_raise_validation}
use py_net_ft.Bindings.Python.Views.{HealthAttribute, read_health}
use py_net_ft.Bindings.Python.Seen.{health_after_run}
use py_net_ft.Tests.{exact, config, client, session, stopping_round}
use py_net_ft.Tests.Worker.{stop_now}

enumerators_iff_example :
    ((enumerator force_unit_name force_units "NEWTON" ≡ some Types.newton)
      ↔ (force_unit_name Types.newton ≡ "NEWTON"))
    × ((enumerator torque_unit_name torque_units "NEWTON" ≡ some Types.newton_meter)
        ↔ (torque_unit_name Types.newton_meter ≡ "NEWTON"))
    × ((enumerator source_name sources "NEWTON" ≡ some Types.sensor)
        ↔ (source_name Types.sensor ≡ "NEWTON"))
    × ((enumerator policy_name policies "NEWTON" ≡ some Types.reconnect)
        ↔ (policy_name Types.reconnect ≡ "NEWTON"))
    × ((enumerator state_name states "NEWTON" ≡ some Types.stopped)
        ↔ (state_name Types.stopped ≡ "NEWTON"))
    × ((enumerator fault_name faults "NEWTON" ≡ some Types.socket)
        ↔ (fault_name Types.socket ≡ "NEWTON"))
    × ((enumerator severity_name severities "NEWTON" ≡ some Status.warn)
        ↔ (severity_name Status.warn ≡ "NEWTON"))
    × ((enumerator read_status_name read_statuses "NEWTON" ≡ some sample)
        ↔ (read_status_name sample ≡ "NEWTON"))
enumerators_iff_example =
    enumerators_iff "NEWTON" Types.newton Types.newton_meter Types.sensor Types.reconnect
      Types.stopped Types.socket Status.warn sample

-- A host that is assigned is read back, and the port stays.
assigned :
    let c = (config_attributes ℕ).assign sensor_host "ft" default_config in
    (read_config ℕ sensor_host c ≡ "ft")
    × (read_config ℕ rdt_port c ≡ read_config ℕ rdt_port default_config)
unfolding read_config assign_config
assigned = (refl, refl)

abbrev clock : ℕ → ℕ
clock n = 1000 + n

calls_raise_validation_example :
    RaisesValidation (new_native (some 0) config clock 0)
    × RaisesValidation (read {F = ℕ} (some 3) (fresh_queue 2) 1000 [])
    × RaisesValidation (wait_for_first_sample {F = ℕ} 3 (fresh_queue 2) 1000 [])
calls_raise_validation_example =
    calls_raise_validation (some 0) config clock 0 (some 3) 3 (fresh_queue 2) 1000 [] []
      (unfold new_runtime start_winsock in refl)

abbrev built : NativeClient ℕ
built = record { queue = fresh_queue 4; client = new_impl config; running = false }

built_ok : new_native (some 0) config clock 4 ≡ ok built
unfolding new_native new_queue construct new_runtime start_winsock validate_config is_blank
    require_port require_safe_timeout require_positive_finite require_safe_count
    validate_calibration checked_duration checked_deadline
built_ok = refl

new_native-IsBuilt_example : IsBuilt config 4 built
new_native-IsBuilt_example = new_native-IsBuilt (some 0) config clock 4 built built_ok

health_after_run_example :
    let n : NativeClient ℕ = record {
      queue = fresh_queue 2;
      client = (run client (session (stopping_round ∷ []) ∷ []) (sent_bytes 8)).0;
      running = true;
    } in
    let (m, h) = health n 9000 in
    (read_health HealthAttribute.state h
      ≡ (if faulted n then ClientState.faulted else ClientState.stopped))
    × (read_health HealthAttribute.fault_code h ≡ fault_code n)
    × (m.client.session_started ≡ false)
    × (m.client.transport.socket ≡ none)
health_after_run_example =
    health_after_run (fresh_queue 2) true client (session (stopping_round ∷ []) ∷ []) (sent_bytes 8)
      9000 refl stop_now
