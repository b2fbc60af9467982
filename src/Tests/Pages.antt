-- ===== src/Tests/Pages.antt =====
-- A configuration page, read and discovered.
use Prim.Native.Char.{code}
use py_net_ft.Common.{
  ℕ, ◌≡◌, ◌-◌, ◌+◌, ◌*◌, refl, ap, ◌∙◌, true, false, Option, none, some, List, [], ◌∷◌, leb, drop,
  All, arith, if◌then◌else◌, ◌&&◌,
}
use py_net_ft.Common.Int.{pos}
use py_net_ft.Exception.{Result, ok, ◌>>=◌}
use py_net_ft.Types.{Config, SensorConfiguration, newton, newton_meter, sensor}
use py_net_ft.Types.Names.{force_unit_from_string, torque_unit_from_string}
use py_net_ft.Types.Validate.{
  validate_config, is_blank, require_port, require_safe_timeout, require_positive_finite,
  require_safe_count, validate_calibration,
}
use py_net_ft.Time.{checked_duration, checked_deadline}
use py_net_ft.XmlConfig.Characters.{Text, chars, trim}
use py_net_ft.XmlConfig.Scanner.{PerTag, prodname, cfgcpf, cfgcpt, scfgfu, scfgtu}
use py_net_ft.XmlConfig.Fields.{extract_required_fields}
use py_net_ft.XmlConfig.Parser.{FloatingEnvironment, parse_sensor_configuration, configuration_of}
use py_net_ft.XmlConfig.Termination.{extract_required_fields_total}
use py_net_ft.XmlConfig.Bounds.{IsField, extract_required_fields-IsField}
use py_net_ft.XmlConfig.RoundTrip.{page, AllPlain, extract_required_fields-page}
use py_net_ft.XmlConfig.Sound.{IsFromSensor}
use py_net_ft.Discovery.{Curl, discover_sensor, fetch, parsed}
use py_net_ft.Discovery.Response.{Write}
use py_net_ft.Discovery.Options.{DiscoveryOptions, session_options, validate_options}
use py_net_ft.Discovery.Bounds.{IsWrite}
use py_net_ft.Discovery.Sound.{IsAnswer, discover_sensor-IsFromSensor}
use py_net_ft.Discovery.Validated.{HasMilliseconds, validate_options-session_options}
use py_net_ft.Protocol.Wire.{record_bytes}
use py_net_ft.Transport.{sent_bytes}
use py_net_ft.Client.State.{new_impl}
use py_net_ft.Client.Worker.{Pass, run}
use py_net_ft.Client.Calibrated.{IsCalibrated}
use py_net_ft.Client.Calibrated.Run.{IsDiscovered, run-IsCalibrated}
use py_net_ft.Tests.{arrival, exact, config, opening, session, stopping_round, raw}

-- Whole numbers, in digits.
read_digits : Text → ℕ → Option ℕ
read_digits [] n = some n
read_digits (c ∷ cs) n =
    let rest = read_digits cs (n * 10 + (code c - 48)) in
    if leb 48 (code c) && leb (code c) 57 then rest else none

abbrev read_number : Text → Option ℕ
read_number cs = read_digits cs 0

abbrev fields : PerTag Text
fields = record {
  prodname_at = chars "FT";
  cfgcpf_at = chars "10";
  cfgcpt_at = chars "20";
  scfgfu_at = chars "N";
  scfgtu_at = chars "Nm";
}

abbrev gap : Text
gap = chars "\n"

fields_plain : AllPlain fields
unfolding trim
fields_plain prodname = (
  record {
    not_empty = refl;
    no_blank_first = refl;
    no_blank_last = refl;
    length_le = ground arith;
  },
  refl,
)
fields_plain cfgcpf = (
  record {
    not_empty = refl;
    no_blank_first = refl;
    no_blank_last = refl;
    length_le = ground arith;
  },
  refl,
)
fields_plain cfgcpt = (
  record {
    not_empty = refl;
    no_blank_first = refl;
    no_blank_last = refl;
    length_le = ground arith;
  },
  refl,
)
fields_plain scfgfu = (
  record {
    not_empty = refl;
    no_blank_first = refl;
    no_blank_last = refl;
    length_le = ground arith;
  },
  refl,
)
fields_plain scfgtu = (
  record {
    not_empty = refl;
    no_blank_first = refl;
    no_blank_last = refl;
    length_le = ground arith;
  },
  refl,
)

extract_required_fields-page_example : extract_required_fields (page gap fields) ≡ some (ok fields)
extract_required_fields-page_example = extract_required_fields-page gap fields refl fields_plain

page_read : extract_required_fields (page gap fields) ≡ some (ok fields)
page_read = extract_required_fields-page gap fields refl fields_plain

extract_required_fields_total_example :
    (r : Result (PerTag Text)) × (extract_required_fields (page gap fields) ≡ some r)
extract_required_fields_total_example = extract_required_fields_total (page gap fields)

extract_required_fields-IsField_example : IsField (chars "Nm")
extract_required_fields-IsField_example =
    extract_required_fields-IsField (page gap fields) fields page_read scfgtu

abbrev to_nearest : FloatingEnvironment
to_nearest = record { held = true; to_nearest = some true; selected = false }

abbrev discovered : SensorConfiguration ℕ
discovered = record {
  product_name = "FT";
  calibration = record {
    counts_per_force_unit = 10;
    counts_per_torque_unit = 20;
    force_unit = newton;
    torque_unit = newton_meter;
  };
  source = sensor;
  revision = 1;
}

configured : configuration_of read_number to_nearest to_nearest fields ≡ ok discovered
unfolding configuration_of read_digits force_unit_from_string torque_unit_from_string
configured = refl

parsed_page :
    parse_sensor_configuration read_number to_nearest to_nearest (page gap fields)
    ≡ some (ok discovered)
unfolding parse_sensor_configuration
parsed_page =
    ap
      (λ (o : Option (Result (PerTag Text))).
        elim o as (λ _. Option (Result (SensorConfiguration ℕ))) [
          | none ↦ none
          | some f ↦ some (f >>= configuration_of read_number to_nearest to_nearest)
        ])
      page_read
    ∙ ap some configured

-- The response, in two pieces.
abbrev pieces : List Write
pieces =
    record { bytes = chars "<netft>"; size = 1; count = 7; stored = true }
    ∷ record { bytes = drop 7 (page gap fields); size = 1; count = 111; stored = true }
    ∷ []

pieces_fit : All IsWrite pieces
pieces_fit = (
  record { size_lt = omega arith; count_lt = omega arith; length_eq = refl },
  (record { size_lt = omega arith; count_lt = omega arith; length_eq = refl }, tt),
)

abbrev answering : Curl
answering = record {
  initialized = true;
  has_handle = true;
  has_url = true;
  accepts_part = λ part value. true;
  accepts_option = λ option. true;
  transfer = λ r. record { writes = pieces; error = none; status = some (pos 200) };
}

abbrev options : DiscoveryOptions ℕ
options = session_options config

fetched : fetch answering options ≡ ok (page gap fields)
unfolding fetch session_options
fetched = refl

discovered_page :
    discover_sensor read_number to_nearest to_nearest answering options ≡ some (ok discovered)
unfolding discover_sensor
discovered_page = ap (parsed read_number to_nearest to_nearest) fetched ∙ parsed_page

discover_sensor-IsFromSensor_example :
    (validate_options options ≡ ok tt)
    × IsAnswer read_number to_nearest to_nearest options answering.transfer discovered
    × IsFromSensor discovered
discover_sensor-IsFromSensor_example =
    discover_sensor-IsFromSensor read_number to_nearest to_nearest answering options discovered
      (λ r. pieces_fit) discovered_page

exact_milliseconds : HasMilliseconds ℕ
exact_milliseconds = record {
  finite_below = λ x f p l. refl;
  not_above = λ x f p l. ground (arith, l);
}

abbrev clock : ℕ → ℕ
clock n = 1000 + n

accepted : validate_config config clock ≡ ok tt
unfolding validate_config is_blank require_port require_safe_timeout require_positive_finite
    require_safe_count validate_calibration checked_duration checked_deadline
accepted = refl

validate_options-session_options_example : validate_options (session_options config) ≡ ok tt
validate_options-session_options_example =
    validate_options-session_options exact_milliseconds config clock accepted

-- A client that asks the sensor, and a run of its worker that receives a record.
abbrev asking : Config ℕ
asking = record config { calibration_override = none }

asking_accepted : validate_config asking clock ≡ ok tt
unfolding validate_config is_blank require_port require_safe_timeout require_positive_finite
    require_safe_count validate_calibration checked_duration checked_deadline
asking_accepted = refl

abbrev asking_pass : Pass ℕ
asking_pass = record (session (arrival 1500 (record_bytes (raw 7)) ∷ stopping_round ∷ [])) {
  start = record opening { discovery = ok discovered };
}

asking_discovered : IsDiscovered read_number asking (ok discovered)
asking_discovered = record {
  environment = to_nearest;
  later_environment = to_nearest;
  curl = answering;
  bytes_written = λ r. pieces_fit;
  discovered = unfold session_options in discovered_page;
}

run-IsCalibrated_example :
    IsCalibrated asking (run (new_impl asking) (asking_pass ∷ []) (sent_bytes 8)).0
run-IsCalibrated_example =
    run-IsCalibrated read_number asking (new_impl asking) clock (asking_pass ∷ []) (sent_bytes 8)
      asking_accepted (asking_discovered, tt)
      (record { config_eq = refl; configuration_safe = tt; latest_good = tt })
