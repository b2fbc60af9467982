-- ===== src/Bindings/Python/Views.antt =====
-- `Sample` and `Health` as bindings/python/bind_types.cpp declares them, and `ReadResult` of module.cpp: attributes
-- that are only read, each with a type of its own. `raw_wrench` is the pair of its halves.
use py_net_ft.Common.{ℕ, String, Option, none, some}
use py_net_ft.Common.Int.{ℤ}
use py_net_ft.Double.{Double}
use py_net_ft.Time.{seconds_of}
use py_net_ft.Types.{
  ForceUnit, TorqueUnit, ClientState, FaultCode, SensorConfiguration, Axes, Sample, HealthSnapshot,
}
use py_net_ft.Bindings.SampleQueue.{ReadStatus, ReadResult}

pub data SampleAttribute : Type 0 where
  rdt_sequence ft_sequence status raw_wrench force torque force_unit : SampleAttribute
  torque_unit configuration_revision received_at_ns : SampleAttribute

pub data HealthAttribute : Type 0 where
  state fault_code sensor_host rdt_port sensor_configuration last_rdt_sequence : HealthAttribute
  last_ft_sequence last_status receive_rate_hz delivery_rate_hz received_count : HealthAttribute
  delivered_count rate_limited_count device_error_count warning_count : HealthAttribute
  lost_count duplicate_count out_of_order_count malformed_count reconnect_count : HealthAttribute
  timeout_count callback_error_count ft_stall_count ft_backward_count : HealthAttribute
  ft_restart_count calibration_change_count last_record_age last_error : HealthAttribute
  last_ft_progress : HealthAttribute

pub data ReadAttribute : Type 0 where
  status sample : ReadAttribute

module _ (F : Type 0) where
  abbrev pub SampleType : SampleAttribute → Type 0
  SampleType raw_wrench = Axes ℤ × Axes ℤ
  SampleType force = Axes F
  SampleType torque = Axes F
  SampleType force_unit = ForceUnit
  SampleType torque_unit = TorqueUnit
  SampleType _ = ℕ

  abbrev pub HealthType : HealthAttribute → Type 0
  HealthType state = ClientState
  HealthType fault_code = FaultCode
  HealthType sensor_host = String
  HealthType rdt_port = ℤ
  HealthType sensor_configuration = Option (SensorConfiguration F)
  HealthType last_rdt_sequence = Option ℕ
  HealthType last_ft_sequence = Option ℕ
  HealthType receive_rate_hz = F
  HealthType delivery_rate_hz = F
  HealthType last_record_age = Option F
  HealthType last_error = String
  HealthType last_ft_progress = String
  HealthType _ = ℕ

  abbrev pub ReadType : ReadAttribute → Type 0
  ReadType ReadAttribute.status = ReadStatus
  ReadType sample = Option (Sample F)

  -- The nanoseconds of the time point since the epoch of its clock, which are its ticks.
  unfoldable pub read_sample : (a : SampleAttribute) → Sample F → SampleType a
  read_sample rdt_sequence x = x.rdt_sequence
  read_sample ft_sequence x = x.ft_sequence
  read_sample SampleAttribute.status x = x.status
  read_sample raw_wrench x = (x.raw_force, x.raw_torque)
  read_sample force x = x.force
  read_sample torque x = x.torque
  read_sample force_unit x = x.force_unit
  read_sample torque_unit x = x.torque_unit
  read_sample configuration_revision x = x.configuration_revision
  read_sample received_at_ns x = x.received_at

  unfoldable pub read_result : (a : ReadAttribute) → ReadResult (Sample F) → ReadType a
  read_result ReadAttribute.status r = r.status
  read_result sample r = r.sample

module _ {F : Type 0} ⦃d : Double F⦄ where
  open d use {of_nat}

  abbrev age_in_seconds : Option ℕ → Option F
  age_in_seconds none = none
  age_in_seconds (some ticks) = some (seconds_of ticks)

  unfoldable pub read_health : (a : HealthAttribute) → HealthSnapshot F → HealthType F a
  read_health state h = h.state
  read_health fault_code h = h.fault_code
  read_health sensor_host h = h.sensor_host
  read_health rdt_port h = h.rdt_port
  read_health sensor_configuration h = h.sensor_configuration
  read_health last_rdt_sequence h = h.last_rdt_sequence
  read_health last_ft_sequence h = h.last_ft_sequence
  read_health last_status h = h.last_status
  read_health receive_rate_hz h = of_nat h.receive_rate_hz
  read_health delivery_rate_hz h = of_nat h.delivery_rate_hz
  read_health received_count h = h.received_count
  read_health delivered_count h = h.delivered_count
  read_health rate_limited_count h = h.rate_limited_count
  read_health device_error_count h = h.device_error_count
  read_health warning_count h = h.warning_count
  read_health lost_count h = h.lost_count
  read_health duplicate_count h = h.duplicate_count
  read_health out_of_order_count h = h.out_of_order_count
  read_health malformed_count h = h.malformed_count
  read_health reconnect_count h = h.reconnect_count
  read_health timeout_count h = h.timeout_count
  read_health callback_error_count h = h.callback_error_count
  read_health ft_stall_count h = h.ft_stall_count
  read_health ft_backward_count h = h.ft_backward_count
  read_health ft_restart_count h = h.ft_restart_count
  read_health calibration_change_count h = h.calibration_change_count
  read_health last_record_age h = age_in_seconds h.last_record_age
  read_health last_error h = h.last_error
  read_health last_ft_progress h = h.last_ft_progress
