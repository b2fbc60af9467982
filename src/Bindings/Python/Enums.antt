-- ===== src/Bindings/Python/Enums.antt =====
-- The enumerations of bindings/python/bind_types.cpp, and `ReadStatus` of module.cpp: the name under which Python
-- sees each enumerator.
use Prim.Native.String.{String}
use py_net_ft.Common.{Option, List, [], ◌∷◌}
use py_net_ft.Types.{
  ForceUnit, TorqueUnit, CalibrationSource, RecoveryPolicy, ClientState, FaultCode, pound_force,
  newton, kilo_pound_force, kilo_newton, kilogram_force, pound_force_inch, pound_force_foot,
  newton_meter, newton_millimeter, kilogram_force_centimeter, kilo_newton_meter, sensor, override,
  reconnect, fail_stop, stopped, connecting, streaming, backoff, faulted, sensor_configuration,
  timeout, socket, serious_status, ft_stall, ft_backward, malformed_storm, callback,
}
use py_net_ft.Types.Names.{first_spelled}
use py_net_ft.Status.{StatusSeverity, fine, warn, error}
use py_net_ft.Bindings.SampleQueue.{ReadStatus, sample, closed}
use py_net_ft.Bindings.SampleQueue

unfoldable pub force_unit_name : ForceUnit → String
force_unit_name ForceUnit.unknown = "UNKNOWN"
force_unit_name pound_force = "POUND_FORCE"
force_unit_name newton = "NEWTON"
force_unit_name kilo_pound_force = "KILO_POUND_FORCE"
force_unit_name kilo_newton = "KILO_NEWTON"
force_unit_name kilogram_force = "KILOGRAM_FORCE"

unfoldable pub torque_unit_name : TorqueUnit → String
torque_unit_name TorqueUnit.unknown = "UNKNOWN"
torque_unit_name pound_force_inch = "POUND_FORCE_INCH"
torque_unit_name pound_force_foot = "POUND_FORCE_FOOT"
torque_unit_name newton_meter = "NEWTON_METER"
torque_unit_name newton_millimeter = "NEWTON_MILLIMETER"
torque_unit_name kilogram_force_centimeter = "KILOGRAM_FORCE_CENTIMETER"
torque_unit_name kilo_newton_meter = "KILO_NEWTON_METER"

unfoldable pub source_name : CalibrationSource → String
source_name sensor = "SENSOR"
source_name override = "OVERRIDE"

unfoldable pub policy_name : RecoveryPolicy → String
policy_name reconnect = "RECONNECT"
policy_name fail_stop = "FAIL_STOP"

unfoldable pub state_name : ClientState → String
state_name stopped = "STOPPED"
state_name connecting = "CONNECTING"
state_name streaming = "STREAMING"
state_name backoff = "BACKOFF"
state_name faulted = "FAULTED"

unfoldable pub fault_name : FaultCode → String
fault_name FaultCode.none = "NONE"
fault_name sensor_configuration = "SENSOR_CONFIGURATION"
fault_name timeout = "TIMEOUT"
fault_name socket = "SOCKET"
fault_name serious_status = "SERIOUS_STATUS"
fault_name ft_stall = "FT_STALL"
fault_name ft_backward = "FT_BACKWARD"
fault_name malformed_storm = "MALFORMED_STORM"
fault_name callback = "CALLBACK"

unfoldable pub severity_name : StatusSeverity → String
severity_name fine = "OK"
severity_name warn = "WARN"
severity_name error = "ERROR"

unfoldable pub read_status_name : ReadStatus → String
read_status_name sample = "SAMPLE"
read_status_name SampleQueue.timeout = "TIMEOUT"
read_status_name closed = "CLOSED"

-- The enumerators in the order of their declaration.
abbrev pub force_units : List ForceUnit
force_units =
    ForceUnit.unknown ∷ pound_force ∷ newton ∷ kilo_pound_force ∷ kilo_newton ∷ kilogram_force ∷ []

abbrev pub torque_units : List TorqueUnit
torque_units =
    TorqueUnit.unknown ∷ pound_force_inch ∷ pound_force_foot ∷ newton_meter ∷ newton_millimeter
    ∷ kilogram_force_centimeter ∷ kilo_newton_meter ∷ []

abbrev pub sources : List CalibrationSource
sources = sensor ∷ override ∷ []

abbrev pub policies : List RecoveryPolicy
policies = reconnect ∷ fail_stop ∷ []

abbrev pub states : List ClientState
states = stopped ∷ connecting ∷ streaming ∷ backoff ∷ faulted ∷ []

abbrev pub faults : List FaultCode
faults =
    FaultCode.none ∷ sensor_configuration ∷ timeout ∷ socket ∷ serious_status ∷ ft_stall
    ∷ ft_backward ∷ malformed_storm ∷ callback ∷ []

abbrev pub severities : List StatusSeverity
severities = fine ∷ warn ∷ error ∷ []

abbrev pub read_statuses : List ReadStatus
read_statuses = sample ∷ SampleQueue.timeout ∷ closed ∷ []

-- The enumerator that has a name in Python, of those that are declared.
unfoldable pub enumerator : {A : Type 0} → (A → String) → List A → String → Option A
unfolding first_spelled
enumerator name values s = first_spelled name s values
