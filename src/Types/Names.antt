-- ===== src/Types/Names.antt =====
-- The spellings of core/src/types.cpp, `to_string` and the two parsers of unit names.
use Prim.Native.String.{String}
use text.Mathlib.Text.{◌==◌ as str_eq}
use text.Mathlib.TextEquality.{eq_iff}
use py_net_ft.Common.{
  ◌≡◌, ◌↔◌, refl, Bool, Bool-cases, inl, inr, Option, some, List, [], ◌∷◌, if◌then◌else◌, arith,
}
use py_net_ft.Common
use py_net_ft.Types.{
  ForceUnit, TorqueUnit, ClientState, FaultCode, pound_force, newton, kilo_pound_force, kilo_newton,
  kilogram_force, pound_force_inch, pound_force_foot, newton_meter, newton_millimeter,
  kilogram_force_centimeter, kilo_newton_meter, stopped, connecting, streaming, backoff, faulted,
  sensor_configuration, timeout, socket, serious_status, ft_stall, ft_backward, malformed_storm,
  callback,
}

unfoldable pub force_unit_to_string : ForceUnit → String
force_unit_to_string pound_force = "lbf"
force_unit_to_string newton = "N"
force_unit_to_string kilo_pound_force = "klbf"
force_unit_to_string kilo_newton = "kN"
force_unit_to_string kilogram_force = "kgf"
force_unit_to_string ForceUnit.unknown = "unknown"

unfoldable pub torque_unit_to_string : TorqueUnit → String
torque_unit_to_string pound_force_inch = "lbf-in"
torque_unit_to_string pound_force_foot = "lbf-ft"
torque_unit_to_string newton_meter = "N-m"
torque_unit_to_string newton_millimeter = "N-mm"
torque_unit_to_string kilogram_force_centimeter = "kgf-cm"
torque_unit_to_string kilo_newton_meter = "kN-m"
torque_unit_to_string TorqueUnit.unknown = "unknown"

unfoldable pub client_state_to_string : ClientState → String
client_state_to_string stopped = "stopped"
client_state_to_string connecting = "connecting"
client_state_to_string streaming = "streaming"
client_state_to_string backoff = "backoff"
client_state_to_string faulted = "faulted"

unfoldable pub fault_code_to_string : FaultCode → String
fault_code_to_string FaultCode.none = "none"
fault_code_to_string sensor_configuration = "sensor_configuration"
fault_code_to_string timeout = "timeout"
fault_code_to_string socket = "socket"
fault_code_to_string serious_status = "serious_status"
fault_code_to_string ft_stall = "ft_stall"
fault_code_to_string ft_backward = "ft_backward"
fault_code_to_string malformed_storm = "malformed_storm"
fault_code_to_string callback = "callback"

-- The loop of the parsers: the first of the listed units with the given spelling.
unfoldable pub first_spelled : {A : Type 0} → (A → String) → String → List A → Option A
first_spelled spelling value [] = Common.none
first_spelled spelling value (u ∷ us) =
    if str_eq (spelling u) value then some u else first_spelled spelling value us

abbrev force_units : List ForceUnit
force_units =
    ForceUnit.unknown ∷ pound_force ∷ newton ∷ kilo_pound_force ∷ kilo_newton ∷ kilogram_force ∷ []

abbrev torque_units : List TorqueUnit
torque_units =
    TorqueUnit.unknown ∷ pound_force_inch ∷ pound_force_foot ∷ newton_meter ∷ newton_millimeter
    ∷ kilogram_force_centimeter ∷ kilo_newton_meter ∷ []

unfoldable pub force_unit_from_string : String → Option ForceUnit
unfolding first_spelled force_unit_to_string
force_unit_from_string value = first_spelled force_unit_to_string value force_units

unfoldable pub torque_unit_from_string : String → Option TorqueUnit
unfolding first_spelled torque_unit_to_string
torque_unit_from_string value = first_spelled torque_unit_to_string value torque_units

pub first_spelled_sound :
    {A : Type 0} (spelling : A → String) (value : String) (us : List A) (u : A)
    → first_spelled spelling value us ≡ some u
    → spelling u ≡ value
unfolding first_spelled
first_spelled_sound spelling value [] u e = ground arith
first_spelled_sound spelling value (v ∷ us) u e =
    ground (arith, eq_iff (spelling v) value, first_spelled_sound spelling value us u)

force_unit_round_trip : (u : ForceUnit) → force_unit_from_string (force_unit_to_string u) ≡ some u
unfolding force_unit_from_string
force_unit_round_trip ForceUnit.unknown = refl
force_unit_round_trip pound_force = refl
force_unit_round_trip newton = refl
force_unit_round_trip kilo_pound_force = refl
force_unit_round_trip kilo_newton = refl
force_unit_round_trip kilogram_force = refl

torque_unit_round_trip :
    (u : TorqueUnit) → torque_unit_from_string (torque_unit_to_string u) ≡ some u
unfolding torque_unit_from_string
torque_unit_round_trip TorqueUnit.unknown = refl
torque_unit_round_trip pound_force_inch = refl
torque_unit_round_trip pound_force_foot = refl
torque_unit_round_trip newton_meter = refl
torque_unit_round_trip newton_millimeter = refl
torque_unit_round_trip kilogram_force_centimeter = refl
torque_unit_round_trip kilo_newton_meter = refl

force_unit_from_string_iff :
    (value : String) (u : ForceUnit)
    → (force_unit_from_string value ≡ some u) ↔ (force_unit_to_string u ≡ value)
force_unit_from_string_iff value u = (
  unfold force_unit_from_string in first_spelled_sound force_unit_to_string value force_units u,
  λ e. rw (← e) (force_unit_round_trip u),
)

torque_unit_from_string_iff :
    (value : String) (u : TorqueUnit)
    → (torque_unit_from_string value ≡ some u) ↔ (torque_unit_to_string u ≡ value)
torque_unit_from_string_iff value u = (
  unfold torque_unit_from_string in first_spelled_sound torque_unit_to_string value torque_units u,
  λ e. rw (← e) (torque_unit_round_trip u),
)

-- A force unit and a torque unit are read from their spellings, and from no other text: the two parsers invert
-- the two printers.
pub units_from_string_iff :
    (value : String) (force : ForceUnit) (torque : TorqueUnit)
    → ((force_unit_from_string value ≡ some force) ↔ (force_unit_to_string force ≡ value))
      × ((torque_unit_from_string value ≡ some torque) ↔ (torque_unit_to_string torque ≡ value))
units_from_string_iff value force torque =
    (force_unit_from_string_iff value force, torque_unit_from_string_iff value torque)
