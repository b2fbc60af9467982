-- ===== src/XmlConfig/Sound.antt =====
-- What `parse_sensor_configuration` of core/src/detail/xml_config.cpp returns.
use Prim.Native.String.{String}
use py_net_ft.Common.{◌≡◌, refl, subst, true, false, Option, none, some, arith}
use py_net_ft.Exception.{Result, ok, throws, ◌>>=◌, bind_ok, then_ok, ok_inj}
use py_net_ft.Double.{Double}
use py_net_ft.Types.{Calibration, SensorConfiguration, sensor}
use py_net_ft.Types.Validate.{validate_calibration}
use py_net_ft.Types.Validate.Usable.{IsSafe, validate_calibration-IsSafe}
use py_net_ft.XmlConfig.Characters.{Text, to_string}
use py_net_ft.XmlConfig.Scanner.{PerTag, prodname}
use py_net_ft.XmlConfig.Fields.{extract_required_fields}
use py_net_ft.XmlConfig.Bounds.{IsField, extract_required_fields-IsField}
use py_net_ft.XmlConfig.Parser.{
  FloatingEnvironment, round_to_nearest, parse_positive_count, parse_force_unit, parse_torque_unit,
  as_discovery_error, configuration_of, parse_sensor_configuration, count_of,
}

as_discovery_error_ok : (r : Result (Unit {0})) → as_discovery_error r ≡ ok tt → r ≡ ok tt
as_discovery_error_ok (ok tt) e = refl
as_discovery_error_ok (throws x) e = ground arith

module _ {F : Type 0} ⦃d : Double F⦄ where
  open d use {of_nat, le, is_finite}

  -- A configuration that a sensor has given.
  pub record IsFromSensor (c : SensorConfiguration F) : Type 0 where
    pub calibration_safe : IsSafe c.calibration
    pub force_finite : is_finite c.calibration.counts_per_force_unit ≡ true
    pub force_positive : le c.calibration.counts_per_force_unit (of_nat 0) ≡ false
    pub torque_finite : is_finite c.calibration.counts_per_torque_unit ≡ true
    pub torque_positive : le c.calibration.counts_per_torque_unit (of_nat 0) ≡ false
    pub source_eq : c.source ≡ sensor
    pub revision_eq : c.revision ≡ 1
    pub name : Text
    pub name_field : IsField name
    pub product_name_eq : c.product_name ≡ to_string name

  module _ (read : Text → Option F) where
    count_of_ok :
        (tag : String) (v : Text) (o : Option F) (x : F)
        → count_of read tag v o ≡ ok x
        → (is_finite x ≡ true) × (le x (of_nat 0) ≡ false)
    count_of_ok tag v none x e = ground arith
    count_of_ok tag v (some y) x e = ground arith

    parse_positive_count_ok :
        (e : FloatingEnvironment) (v : Text) (tag : String) (x : F)
        → parse_positive_count read e v tag ≡ ok x
        → (is_finite x ≡ true) × (le x (of_nat 0) ≡ false)
    unfolding parse_positive_count
    parse_positive_count_ok e v tag x p =
        count_of_ok tag v (read v) x (then_ok (round_to_nearest e) _ x p).1

    configuration_of-IsFromSensor :
        (e e' : FloatingEnvironment) (fields : PerTag Text) (c : SensorConfiguration F)
        → IsField fields.prodname_at
        → configuration_of read e e' fields ≡ ok c
        → IsFromSensor c
    unfolding configuration_of
    configuration_of-IsFromSensor e e' fields c w p =
        let (force, pf, p1) =
          bind_ok (parse_positive_count read e fields.cfgcpf_at "cfgcpf") _ c p in
        let (torque, pt, p2) =
          bind_ok (parse_positive_count read e' fields.cfgcpt_at "cfgcpt") _ c p1 in
        let (fu, pfu, p3) = bind_ok (parse_force_unit (to_string fields.scfgfu_at)) _ c p2 in
        let (tu, ptu, p4) = bind_ok (parse_torque_unit (to_string fields.scfgtu_at)) _ c p3 in
        let k : Calibration F = record {
          counts_per_force_unit = force;
          counts_per_torque_unit = torque;
          force_unit = fu;
          torque_unit = tu;
        } in
        let (pk, p5) = then_ok (as_discovery_error (validate_calibration k)) _ c p4 in
        let (ff, fp) = parse_positive_count_ok e fields.cfgcpf_at "cfgcpf" force pf in
        let (tf, tp) = parse_positive_count_ok e' fields.cfgcpt_at "cfgcpt" torque pt in
        subst IsFromSensor (ok_inj _ c p5) (record {
          calibration_safe = validate_calibration-IsSafe k (as_discovery_error_ok _ pk);
          force_finite = ff;
          force_positive = fp;
          torque_finite = tf;
          torque_positive = tp;
          source_eq = refl;
          revision_eq = refl;
          name = fields.prodname_at;
          name_field = w;
          product_name_eq = refl;
        })

    -- A page that is accepted gives a calibration with finite and positive counts, not below the least safe
    -- one, and known units; its source is the sensor, its revision 1, and its product name is a field that
    -- is not empty, has no blank at either end and has 128 characters at most.
    pub parse_sensor_configuration-IsFromSensor :
        (e e' : FloatingEnvironment) (xml : Text) (c : SensorConfiguration F)
        → parse_sensor_configuration read e e' xml ≡ some (ok c)
        → IsFromSensor c
    unfolding parse_sensor_configuration
    parse_sensor_configuration-IsFromSensor e e' xml c = go (extract_required_fields xml) refl
      where
        inner : (r : Result (SensorConfiguration F)) → some r ≡ some (ok c) → r ≡ ok c
        inner r p = ground arith

        go :
            (o : Option (Result (PerTag Text)))
            → extract_required_fields xml ≡ o
            → (elim o as (λ _. Option (Result (SensorConfiguration F))) [
              | none ↦ none
              | some fields ↦ some (fields >>= configuration_of read e e')
            ])
              ≡ some (ok c)
            → IsFromSensor c
        go none q p = ground arith
        go (some (throws x)) q p = ground arith
        go (some (ok fields)) q p =
            configuration_of-IsFromSensor e e' fields c
              (extract_required_fields-IsField xml fields q prodname)
              (inner (configuration_of read e e' fields) p)
