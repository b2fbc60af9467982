-- ===== src/XmlConfig/Parser.antt =====
-- `parse_sensor_configuration` of core/src/detail/xml_config.cpp, and the readers of its values.
use Prim.Native.String.{String, ◌++◌}
use text.Mathlib.Text.{◌==◌ as str_eq}
use py_net_ft.Common.{Bool, false, ◌||◌, not, Option, none, some, [], ◌∷◌, if◌then◌else◌, is_nil}
use py_net_ft.Exception.{
  Result, ok, throws, ◌>>=◌, ◌>>◌, require, invalid_argument, discovery_error,
}
use py_net_ft.Double.{Double}
use py_net_ft.Types.{ForceUnit, TorqueUnit, Calibration, SensorConfiguration, sensor}
use py_net_ft.Types.Names.{force_unit_from_string, torque_unit_from_string}
use py_net_ft.Types.Validate.{validate_calibration, known_force, known_torque}
use py_net_ft.XmlConfig.Characters.{Text, to_string, is}
use py_net_ft.XmlConfig.Scanner.{PerTag, refuse}
use py_net_ft.XmlConfig.Fields.{extract_required_fields}

-- What the functions of `<cfenv>` answer: whether the environment can be held, whether the rounding mode
-- can be told and is to nearest, and whether it can be set. A failure to restore it ends the process.
pub record FloatingEnvironment : Type 0 where
  pub held : Bool
  pub to_nearest : Option Bool
  pub selected : Bool

abbrev select_nearest : FloatingEnvironment → Option Bool → Result (Unit {0})
select_nearest e none = refuse "failed to inspect the floating-point rounding mode"
select_nearest e (some nearest) =
    require (nearest || e.selected)
      (discovery_error "failed to select round-to-nearest floating-point parsing")

-- The constructor of `ScopedRoundToNearest`.
unfoldable pub round_to_nearest : FloatingEnvironment → Result (Unit {0})
round_to_nearest e = do
  require e.held (discovery_error "failed to hold the floating-point environment")
  select_nearest e e.to_nearest

abbrev starts_with_plus : Text → Bool
starts_with_plus [] = false
starts_with_plus (c ∷ cs) = is b'+' c

unfoldable pub normalize_torque_spelling : String → String
normalize_torque_spelling value =
    if str_eq value "Nm"
    then "N-m"
    else if str_eq value "Nmm"
    then "N-mm"
    else if str_eq value "kg-cm"
    then "kgf-cm"
    else value

abbrev known_force_unit : Option ForceUnit → Result ForceUnit
known_force_unit none = refuse "sensor configuration contains an unknown force unit"
known_force_unit (some u) =
    if known_force u then ok u else refuse "sensor configuration contains an unknown force unit"

abbrev known_torque_unit : Option TorqueUnit → Result TorqueUnit
known_torque_unit none = refuse "sensor configuration contains an unknown torque unit"
known_torque_unit (some u) =
    if known_torque u then ok u else refuse "sensor configuration contains an unknown torque unit"

unfoldable pub parse_force_unit : String → Result ForceUnit
parse_force_unit value = known_force_unit (force_unit_from_string value)

unfoldable pub parse_torque_unit : String → Result TorqueUnit
unfolding normalize_torque_spelling
parse_torque_unit value =
    known_torque_unit (torque_unit_from_string (normalize_torque_spelling value))

-- The handler around `validate`.
abbrev pub as_discovery_error : Result (Unit {0}) → Result (Unit {0})
as_discovery_error (throws (invalid_argument message)) = throws (discovery_error message)
as_discovery_error r = r

-- `read` stands for the extraction of a `double` from a whole text by a classic-locale stream: nothing
-- where the stream fails or does not end there.
module _ {F : Type 0} ⦃d : Double F⦄ (read : Text → Option F) where
  open d use {of_nat, le, is_finite}

  abbrev pub count_of : String → Text → Option F → Result F
  count_of tag value none =
      refuse (("sensor configuration field '" ++ tag) ++ "' must be a finite positive number")
  count_of tag value (some x) =
      if is_nil value || starts_with_plus value || not (is_finite x) || le x (of_nat 0)
      then refuse (("sensor configuration field '" ++ tag) ++ "' must be a finite positive number")
      else ok x

  unfoldable pub parse_positive_count : FloatingEnvironment → Text → String → Result F
  unfolding round_to_nearest
  parse_positive_count e value tag = do round_to_nearest e; count_of tag value (read value)

  -- `e` and `e'` are what the environment answers the two counts.
  unfoldable pub configuration_of :
      FloatingEnvironment → FloatingEnvironment → PerTag Text → Result (SensorConfiguration F)
  unfolding parse_positive_count parse_force_unit parse_torque_unit validate_calibration
  configuration_of e e' fields = do
    force ← parse_positive_count e fields.cfgcpf_at "cfgcpf"
    torque ← parse_positive_count e' fields.cfgcpt_at "cfgcpt"
    force_unit ← parse_force_unit (to_string fields.scfgfu_at)
    torque_unit ← parse_torque_unit (to_string fields.scfgtu_at)
    let calibration : Calibration F = record {
      counts_per_force_unit = force;
      counts_per_torque_unit = torque;
      force_unit = force_unit;
      torque_unit = torque_unit;
    }
    as_discovery_error (validate_calibration calibration)
    ok (record {
      product_name = to_string fields.prodname_at;
      calibration = calibration;
      source = sensor;
      revision = 1;
    })

  -- `none` where the rounds of the scanner run out.
  unfoldable pub parse_sensor_configuration :
      FloatingEnvironment → FloatingEnvironment → Text → Option (Result (SensorConfiguration F))
  unfolding extract_required_fields configuration_of
  parse_sensor_configuration e e' xml = elim (extract_required_fields xml) [
    | none ↦ none
    | some fields ↦ some (fields >>= configuration_of e e')
  ]
