-- ===== src/Client/State.antt =====
-- The members of `Client::Impl` of core/src/detail/client_impl.hpp, and the small functions of
-- core/src/detail/client_impl.cpp that only compute.
use py_net_ft.Common.{
  ℕ, String, ◌+◌, Bool, true, false, ◌&&◌, Option, none, some, ◌==◌, List, [], ◌∷◌, ltb,
  if◌then◌else◌, inc64,
}
use py_net_ft.Double.{Double}
use py_net_ft.Time.{ticks_per_second}
use py_net_ft.Types.{
  force_index, torque_index, ForceUnit, TorqueUnit, FaultCode, Calibration, SensorConfiguration,
  Config, Sample, HealthSnapshot,
}
use py_net_ft.Types
use py_net_ft.Sequence.{
  RdtSequenceTracker, FtSequenceTracker, FtSequenceKind, new_rdt_tracker, new_ft_tracker, forward,
  stall, backward, restart,
}
use py_net_ft.Transport.{Transport, new_transport}

pub data SessionResult : Type 0 where
  stopped sensor_configuration timeout socket serious_status ft_stall ft_backward : SessionResult
  malformed_storm callback : SessionResult

pub record SessionOutcome : Type 0 where
  pub result : SessionResult
  pub message : String
  pub received_valid_record : Bool

-- A thread is a number, and 0 is `std::thread::id{}`; `worker` is the thread that `worker_` holds. The
-- callback is named by a number. A time point 0 is `time_point{}`.
pub record Impl (F : Type 0) : Type 0 where
  pub config : Config F
  pub worker : Option ℕ
  pub active_worker_id : ℕ
  pub joining : Bool
  pub callback : Option ℕ
  pub transport : Transport
  pub rdt_sequence : RdtSequenceTracker
  pub ft_sequence : FtSequenceTracker
  pub stopping : Bool
  pub worker_exited : Bool
  pub session_started : Bool
  pub fault_latch : FaultCode
  pub health : HealthSnapshot F
  pub latest : Option (Sample F)
  pub last_delivery_at : ℕ
  pub last_record_at : ℕ
  pub generation : ℕ
  pub delivered_generation : ℕ
  pub receive_times : List ℕ
  pub delivery_times : List ℕ
  pub consecutive_malformed : ℕ

abbrev pub malformed_storm_threshold : ℕ
malformed_storm_threshold = 10

unfoldable pub fault_for : SessionResult → FaultCode
fault_for sensor_configuration = FaultCode.sensor_configuration
fault_for timeout = FaultCode.timeout
fault_for socket = FaultCode.socket
fault_for serious_status = FaultCode.serious_status
fault_for ft_stall = FaultCode.ft_stall
fault_for ft_backward = FaultCode.ft_backward
fault_for malformed_storm = FaultCode.malformed_storm
fault_for callback = FaultCode.callback
fault_for stopped = FaultCode.none

unfoldable pub message_for : SessionResult → String
message_for sensor_configuration = "sensor configuration discovery failed"
message_for timeout = "no valid RDT record before timeout"
message_for socket = "UDP socket failure"
message_for serious_status = "serious device status"
message_for ft_stall = "FT sequence stalled"
message_for ft_backward = "FT sequence moved backward"
message_for malformed_storm = "malformed packet storm"
message_for callback = "sample callback failed"
message_for stopped = ""

unfoldable pub ft_progress_name : FtSequenceKind → String
ft_progress_name FtSequenceKind.first = "first"
ft_progress_name forward = "forward"
ft_progress_name stall = "stall"
ft_progress_name backward = "backward"
ft_progress_name restart = "restart"

-- The loop that drops from the front the times that are more than a second before `now`.
unfoldable pub prune_rate_window : List ℕ → ℕ → List ℕ
prune_rate_window [] now = []
prune_rate_window (t ∷ times) now =
    let rest = prune_rate_window times now in
    if ltb (t + ticks_per_second) now then rest else t ∷ times

module _ {F : Type 0} ⦃d : Double F⦄ where
  open d use {eq}

  unfoldable pub same_calibration : Calibration F → Calibration F → Bool
  same_calibration left right =
      eq left.counts_per_force_unit right.counts_per_force_unit
      && eq left.counts_per_torque_unit right.counts_per_torque_unit
      && force_index left.force_unit == force_index right.force_unit
      && torque_index left.torque_unit == torque_index right.torque_unit

  unfoldable pub configure_health :
      Option (SensorConfiguration F) → SensorConfiguration F → HealthSnapshot F → HealthSnapshot F
  unfolding same_calibration
  configure_health none c h = record h { sensor_configuration = some (record c { revision = 1 }) }
  configure_health (some previous) c h =
      if same_calibration previous.calibration c.calibration
      then record h { sensor_configuration = some (record c { revision = previous.revision }) }
      else record h {
        sensor_configuration = some (record c { revision = inc64 previous.revision });
        calibration_change_count = inc64 h.calibration_change_count;
      }

  unfoldable pub apply_configuration : Impl F → SensorConfiguration F → Impl F
  unfolding configure_health
  apply_configuration s c = record s {
    health = configure_health s.health.sensor_configuration c s.health;
  }

abbrev new_health : {F : Type 0} → Config F → HealthSnapshot F
new_health c = record {
  state = Types.stopped;
  fault_code = FaultCode.none;
  sensor_host = c.sensor_host;
  rdt_port = c.rdt_port;
  sensor_configuration = none;
  last_rdt_sequence = none;
  last_ft_sequence = none;
  last_status = 0;
  receive_rate_hz = 0;
  delivery_rate_hz = 0;
  received_count = 0;
  delivered_count = 0;
  rate_limited_count = 0;
  device_error_count = 0;
  warning_count = 0;
  lost_count = 0;
  duplicate_count = 0;
  out_of_order_count = 0;
  malformed_count = 0;
  reconnect_count = 0;
  timeout_count = 0;
  callback_error_count = 0;
  ft_stall_count = 0;
  ft_backward_count = 0;
  ft_restart_count = 0;
  calibration_change_count = 0;
  last_record_age = none;
  last_error = "";
  last_ft_progress = "unknown";
}

-- The constructor, for a configuration that has been validated.
abbrev pub new_impl : {F : Type 0} → Config F → Impl F
new_impl c = record {
  config = c;
  worker = none;
  active_worker_id = 0;
  joining = false;
  callback = none;
  transport = new_transport;
  rdt_sequence = new_rdt_tracker;
  ft_sequence = new_ft_tracker;
  stopping = false;
  worker_exited = true;
  session_started = false;
  fault_latch = FaultCode.none;
  health = new_health c;
  latest = none;
  last_delivery_at = 0;
  last_record_at = 0;
  generation = 0;
  delivered_generation = 0;
  receive_times = [];
  delivery_times = [];
  consecutive_malformed = 0;
}
