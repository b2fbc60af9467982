-- ===== src/Types.antt =====
-- core/include/netft/types.hpp: the data that the parts of the core exchange. `F` is `double`. A rate is
-- kept as the count that the code converts, and an age or a time point in ticks.
pub mod Names
pub mod Defaults
pub mod Validate
use Prim.Native.String.{String}
use py_net_ft.Common.{ℕ, Bool, Option, List}
use py_net_ft.Common.Int.{ℤ}

pub data ForceUnit : Type 0 where
  unknown pound_force newton kilo_pound_force kilo_newton kilogram_force : ForceUnit

pub data TorqueUnit : Type 0 where
  unknown pound_force_inch pound_force_foot newton_meter newton_millimeter : TorqueUnit
  kilogram_force_centimeter kilo_newton_meter : TorqueUnit

-- The numbers of the enumerators, by which `==` compares them.
abbrev pub force_index : ForceUnit → ℕ
force_index ForceUnit.unknown = 0
force_index pound_force = 1
force_index newton = 2
force_index kilo_pound_force = 3
force_index kilo_newton = 4
force_index kilogram_force = 5

abbrev pub torque_index : TorqueUnit → ℕ
torque_index TorqueUnit.unknown = 0
torque_index pound_force_inch = 1
torque_index pound_force_foot = 2
torque_index newton_meter = 3
torque_index newton_millimeter = 4
torque_index kilogram_force_centimeter = 5
torque_index kilo_newton_meter = 6

pub data CalibrationSource : Type 0 where
  sensor override : CalibrationSource

pub data RecoveryPolicy : Type 0 where
  reconnect fail_stop : RecoveryPolicy

pub data ClientState : Type 0 where
  stopped connecting streaming backoff faulted : ClientState

pub data FaultCode : Type 0 where
  none sensor_configuration timeout socket serious_status ft_stall ft_backward : FaultCode
  malformed_storm callback : FaultCode

pub record Calibration (F : Type 0) : Type 0 where
  pub counts_per_force_unit : F
  pub counts_per_torque_unit : F
  pub force_unit : ForceUnit
  pub torque_unit : TorqueUnit

pub record SensorConfiguration (F : Type 0) : Type 0 where
  pub product_name : String
  pub calibration : Calibration F
  pub source : CalibrationSource
  pub revision : ℕ

-- A port is an `int`, which may be negative.
pub record Config (F : Type 0) : Type 0 where
  pub sensor_host : String
  pub rdt_port : ℤ
  pub http_port : ℤ
  pub receive_timeout : F
  pub configuration_connect_timeout : F
  pub configuration_timeout : F
  pub reconnect_initial_delay : F
  pub reconnect_max_delay : F
  pub sample_rate_limit_hz : F
  pub deliver_samples_with_error_status : Bool
  pub recovery_policy : RecoveryPolicy
  pub calibration_override : Option (Calibration F)

-- A force or a torque along three axes.
pub record Axes (A : Type 0) : Type 0 where
  pub x : A
  pub y : A
  pub z : A

-- `raw_wrench` is the pair of its first and its last three entries.
pub record Sample (F : Type 0) : Type 0 where
  pub rdt_sequence : ℕ
  pub ft_sequence : ℕ
  pub status : ℕ
  pub raw_force : Axes ℤ
  pub raw_torque : Axes ℤ
  pub force : Axes F
  pub torque : Axes F
  pub force_unit : ForceUnit
  pub torque_unit : TorqueUnit
  pub configuration_revision : ℕ
  pub received_at : ℕ

pub record HealthSnapshot (F : Type 0) : Type 0 where
  pub state : ClientState
  pub fault_code : FaultCode
  pub sensor_host : String
  pub rdt_port : ℤ
  pub sensor_configuration : Option (SensorConfiguration F)
  pub last_rdt_sequence : Option ℕ
  pub last_ft_sequence : Option ℕ
  pub last_status : ℕ
  pub receive_rate_hz : ℕ
  pub delivery_rate_hz : ℕ
  pub received_count : ℕ
  pub delivered_count : ℕ
  pub rate_limited_count : ℕ
  pub device_error_count : ℕ
  pub warning_count : ℕ
  pub lost_count : ℕ
  pub duplicate_count : ℕ
  pub out_of_order_count : ℕ
  pub malformed_count : ℕ
  pub reconnect_count : ℕ
  pub timeout_count : ℕ
  pub callback_error_count : ℕ
  pub ft_stall_count : ℕ
  pub ft_backward_count : ℕ
  pub ft_restart_count : ℕ
  pub calibration_change_count : ℕ
  pub last_record_age : Option ℕ
  pub last_error : String
  pub last_ft_progress : String
