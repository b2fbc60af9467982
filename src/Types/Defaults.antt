-- ===== src/Types/Defaults.antt =====
-- The default members of core/include/netft/types.hpp. A literal is the nearest `double`, as the quotient of its
-- digits is.
use py_net_ft.Common.{none, false}
use py_net_ft.Common.Int.{pos}
use py_net_ft.Double.{Double}
use py_net_ft.Types.{
  ForceUnit, TorqueUnit, Calibration, SensorConfiguration, Config, sensor, reconnect,
}

module _ {F : Type 0} ⦃d : Double F⦄ where
  open d use {of_nat, div}

  abbrev pub default_calibration : Calibration F
  default_calibration = record {
    counts_per_force_unit = of_nat 0;
    counts_per_torque_unit = of_nat 0;
    force_unit = ForceUnit.unknown;
    torque_unit = TorqueUnit.unknown;
  }

  abbrev pub default_sensor_configuration : SensorConfiguration F
  default_sensor_configuration = record {
    product_name = "";
    calibration = default_calibration;
    source = sensor;
    revision = 1;
  }

  abbrev pub default_config : Config F
  default_config = record {
    sensor_host = "192.168.1.1";
    rdt_port = pos 49152;
    http_port = pos 80;
    receive_timeout = div (of_nat 1) (of_nat 10);
    configuration_connect_timeout = div (of_nat 5) (of_nat 10);
    configuration_timeout = of_nat 1;
    reconnect_initial_delay = div (of_nat 25) (of_nat 100);
    reconnect_max_delay = of_nat 5;
    sample_rate_limit_hz = of_nat 0;
    deliver_samples_with_error_status = false;
    recovery_policy = reconnect;
    calibration_override = none;
  }
