-- ===== src/Bindings/Python/Config.antt =====
-- `Calibration`, `SensorConfiguration` and `Config` as bindings/python/bind_types.cpp declares them. A duration of the
-- core is its count of seconds, which `duration_getter` and `duration_setter` convert.
use py_net_ft.Common.{ℕ, String, Bool, Option}
use py_net_ft.Common.Int.{ℤ}
use py_net_ft.Types.{
  ForceUnit, TorqueUnit, CalibrationSource, RecoveryPolicy, Calibration, SensorConfiguration,
  Config,
}
use py_net_ft.Bindings.Python.Attributes.{Attributes}

pub data CalibrationAttribute : Type 0 where
  counts_per_force_unit counts_per_torque_unit force_unit torque_unit : CalibrationAttribute

pub data SensorAttribute : Type 0 where
  product_name calibration source revision : SensorAttribute

pub data ConfigAttribute : Type 0 where
  sensor_host rdt_port http_port receive_timeout configuration_connect_timeout : ConfigAttribute
  configuration_timeout reconnect_initial_delay reconnect_max_delay : ConfigAttribute
  sample_rate_limit_hz deliver_samples_with_error_status recovery_policy : ConfigAttribute
  calibration_override : ConfigAttribute

-- The count of seconds of a duration, and the duration of a count: both are the `double`.
abbrev pub duration_count : {F : Type 0} → F → F
duration_count seconds = seconds

abbrev pub duration_of : {F : Type 0} → F → F
duration_of seconds = seconds

module _ (F : Type 0) where
  abbrev pub CalibrationType : CalibrationAttribute → Type 0
  CalibrationType counts_per_force_unit = F
  CalibrationType counts_per_torque_unit = F
  CalibrationType force_unit = ForceUnit
  CalibrationType torque_unit = TorqueUnit

  abbrev pub SensorType : SensorAttribute → Type 0
  SensorType product_name = String
  SensorType calibration = Calibration F
  SensorType source = CalibrationSource
  SensorType revision = ℕ

  abbrev pub ConfigType : ConfigAttribute → Type 0
  ConfigType sensor_host = String
  ConfigType rdt_port = ℤ
  ConfigType http_port = ℤ
  ConfigType deliver_samples_with_error_status = Bool
  ConfigType recovery_policy = RecoveryPolicy
  ConfigType calibration_override = Option (Calibration F)
  ConfigType _ = F

  abbrev calibration_name : CalibrationAttribute → String
  calibration_name counts_per_force_unit = "counts_per_force_unit"
  calibration_name counts_per_torque_unit = "counts_per_torque_unit"
  calibration_name force_unit = "force_unit"
  calibration_name torque_unit = "torque_unit"

  unfoldable pub read_calibration : (a : CalibrationAttribute) → Calibration F → CalibrationType a
  read_calibration counts_per_force_unit o = o.counts_per_force_unit
  read_calibration counts_per_torque_unit o = o.counts_per_torque_unit
  read_calibration force_unit o = o.force_unit
  read_calibration torque_unit o = o.torque_unit

  unfoldable pub assign_calibration :
      (a : CalibrationAttribute) → CalibrationType a → Calibration F → Calibration F
  assign_calibration counts_per_force_unit v o = record o { counts_per_force_unit = v }
  assign_calibration counts_per_torque_unit v o = record o { counts_per_torque_unit = v }
  assign_calibration force_unit v o = record o { force_unit = v }
  assign_calibration torque_unit v o = record o { torque_unit = v }

  abbrev pub calibration_attributes :
      Attributes (Calibration F) CalibrationAttribute CalibrationType
  calibration_attributes = record {
    name = calibration_name;
    read = read_calibration;
    assign = assign_calibration;
  }

  abbrev sensor_name : SensorAttribute → String
  sensor_name product_name = "product_name"
  sensor_name calibration = "calibration"
  sensor_name source = "source"
  sensor_name revision = "revision"

  unfoldable pub read_sensor : (a : SensorAttribute) → SensorConfiguration F → SensorType a
  read_sensor product_name o = o.product_name
  read_sensor calibration o = o.calibration
  read_sensor source o = o.source
  read_sensor revision o = o.revision

  unfoldable pub assign_sensor :
      (a : SensorAttribute) → SensorType a → SensorConfiguration F → SensorConfiguration F
  assign_sensor product_name v o = record o { product_name = v }
  assign_sensor calibration v o = record o { calibration = v }
  assign_sensor source v o = record o { source = v }
  assign_sensor revision v o = record o { revision = v }

  abbrev pub sensor_attributes : Attributes (SensorConfiguration F) SensorAttribute SensorType
  sensor_attributes = record { name = sensor_name; read = read_sensor; assign = assign_sensor }

  abbrev config_name : ConfigAttribute → String
  config_name sensor_host = "sensor_host"
  config_name rdt_port = "rdt_port"
  config_name http_port = "http_port"
  config_name receive_timeout = "receive_timeout"
  config_name configuration_connect_timeout = "configuration_connect_timeout"
  config_name configuration_timeout = "configuration_timeout"
  config_name reconnect_initial_delay = "reconnect_initial_delay"
  config_name reconnect_max_delay = "reconnect_max_delay"
  config_name sample_rate_limit_hz = "sample_rate_limit_hz"
  config_name deliver_samples_with_error_status = "deliver_samples_with_error_status"
  config_name recovery_policy = "recovery_policy"
  config_name calibration_override = "calibration_override"

  unfoldable pub read_config : (a : ConfigAttribute) → Config F → ConfigType a
  read_config sensor_host o = o.sensor_host
  read_config rdt_port o = o.rdt_port
  read_config http_port o = o.http_port
  read_config receive_timeout o = duration_count o.receive_timeout
  read_config configuration_connect_timeout o = duration_count o.configuration_connect_timeout
  read_config configuration_timeout o = duration_count o.configuration_timeout
  read_config reconnect_initial_delay o = duration_count o.reconnect_initial_delay
  read_config reconnect_max_delay o = duration_count o.reconnect_max_delay
  read_config sample_rate_limit_hz o = o.sample_rate_limit_hz
  read_config deliver_samples_with_error_status o = o.deliver_samples_with_error_status
  read_config recovery_policy o = o.recovery_policy
  read_config calibration_override o = o.calibration_override

  unfoldable pub assign_config : (a : ConfigAttribute) → ConfigType a → Config F → Config F
  assign_config sensor_host v o = record o { sensor_host = v }
  assign_config rdt_port v o = record o { rdt_port = v }
  assign_config http_port v o = record o { http_port = v }
  assign_config receive_timeout v o = record o { receive_timeout = duration_of v }
  assign_config configuration_connect_timeout v o = record o {
    configuration_connect_timeout = duration_of v;
  }
  assign_config configuration_timeout v o = record o { configuration_timeout = duration_of v }
  assign_config reconnect_initial_delay v o = record o { reconnect_initial_delay = duration_of v }
  assign_config reconnect_max_delay v o = record o { reconnect_max_delay = duration_of v }
  assign_config sample_rate_limit_hz v o = record o { sample_rate_limit_hz = v }
  assign_config deliver_samples_with_error_status v o = record o {
    deliver_samples_with_error_status = v;
  }
  assign_config recovery_policy v o = record o { recovery_policy = v }
  assign_config calibration_override v o = record o { calibration_override = v }

  abbrev pub config_attributes : Attributes (Config F) ConfigAttribute ConfigType
  config_attributes = record { name = config_name; read = read_config; assign = assign_config }
