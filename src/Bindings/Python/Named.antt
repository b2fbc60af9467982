-- ===== src/Bindings/Python/Named.antt =====
-- The enumerations that bindings/python/bind_types.cpp and module.cpp declare, seen from Python.
use Prim.Native.Char.{code}
use Prim.Native.String.{String}
use py_net_ft.Common.{ℕ, ◌-◌, map, leb, ◌&&◌, if◌then◌else◌, ◌≡◌, ◌↔◌, refl, some, List}
use py_net_ft.XmlConfig.Characters.{chars}
use py_net_ft.Types.{
  sensor, reconnect, stopped, ForceUnit, TorqueUnit, CalibrationSource, RecoveryPolicy, ClientState,
  FaultCode,
}
use py_net_ft.Types.Names.{first_spelled_sound, client_state_to_string, fault_code_to_string}
use py_net_ft.Status.{StatusSeverity, fine}
use py_net_ft.Bindings.SampleQueue.{ReadStatus, sample}
use py_net_ft.Bindings.Python.Enums.{
  enumerator, force_unit_name, torque_unit_name, source_name, policy_name, state_name, fault_name,
  severity_name, read_status_name, force_units, torque_units, sources, policies, states, faults,
  severities, read_statuses,
}

-- Each enumerator is found by its name.
abbrev IsListed : {A : Type 0} → (A → String) → List A → Type 0
IsListed {A} name values = (a : A) → enumerator name values (name a) ≡ some a

enumerator_iff :
    {A : Type 0} (name : A → String) (values : List A) (s : String) (a : A)
    → IsListed name values
    → (enumerator name values s ≡ some a) ↔ (name a ≡ s)
enumerator_iff name values s a listed =
    (unfold enumerator in first_spelled_sound name s values a, λ p. rw (← p) (listed a))

force_units-IsListed : IsListed force_unit_name force_units
unfolding enumerator force_unit_name
force_units-IsListed u =
    elim u as (λ k. enumerator force_unit_name force_units (force_unit_name k) ≡ some k) [
      | ForceUnit.unknown ↦ refl
      | _ ↦ refl
    ]

torque_units-IsListed : IsListed torque_unit_name torque_units
unfolding enumerator torque_unit_name
torque_units-IsListed u =
    elim u as (λ k. enumerator torque_unit_name torque_units (torque_unit_name k) ≡ some k) [
      | TorqueUnit.unknown ↦ refl
      | _ ↦ refl
    ]

sources-IsListed : IsListed source_name sources
unfolding enumerator source_name
sources-IsListed u = elim u as (λ k. enumerator source_name sources (source_name k) ≡ some k) [
  | sensor ↦ refl
  | _ ↦ refl
]

policies-IsListed : IsListed policy_name policies
unfolding enumerator policy_name
policies-IsListed u = elim u as (λ k. enumerator policy_name policies (policy_name k) ≡ some k) [
  | reconnect ↦ refl
  | _ ↦ refl
]

states-IsListed : IsListed state_name states
unfolding enumerator state_name
states-IsListed u = elim u as (λ k. enumerator state_name states (state_name k) ≡ some k) [
  | stopped ↦ refl
  | _ ↦ refl
]

faults-IsListed : IsListed fault_name faults
unfolding enumerator fault_name
faults-IsListed u = elim u as (λ k. enumerator fault_name faults (fault_name k) ≡ some k) [
  | FaultCode.none ↦ refl
  | _ ↦ refl
]

severities-IsListed : IsListed severity_name severities
unfolding enumerator severity_name
severities-IsListed u =
    elim u as (λ k. enumerator severity_name severities (severity_name k) ≡ some k) [
      | fine ↦ refl
      | _ ↦ refl
    ]

read_statuses-IsListed : IsListed read_status_name read_statuses
unfolding enumerator read_status_name
read_statuses-IsListed u =
    elim u as (λ k. enumerator read_status_name read_statuses (read_status_name k) ≡ some k) [
      | sample ↦ refl
      | _ ↦ refl
    ]

-- Python finds an enumerator under its name and no other: of each of the eight enumerations every enumerator
-- is declared, and no name twice, so that looking a name up inverts the naming.
pub enumerators_iff :
    (s : String) (force : ForceUnit) (torque : TorqueUnit) (source : CalibrationSource)
    (policy : RecoveryPolicy) (state : ClientState) (fault : FaultCode) (severity : StatusSeverity)
    (status : ReadStatus)
    → ((enumerator force_unit_name force_units s ≡ some force) ↔ (force_unit_name force ≡ s))
      × ((enumerator torque_unit_name torque_units s ≡ some torque) ↔ (torque_unit_name torque ≡ s))
      × ((enumerator source_name sources s ≡ some source) ↔ (source_name source ≡ s))
      × ((enumerator policy_name policies s ≡ some policy) ↔ (policy_name policy ≡ s))
      × ((enumerator state_name states s ≡ some state) ↔ (state_name state ≡ s))
      × ((enumerator fault_name faults s ≡ some fault) ↔ (fault_name fault ≡ s))
      × ((enumerator severity_name severities s ≡ some severity) ↔ (severity_name severity ≡ s))
      × ((enumerator read_status_name read_statuses s ≡ some status)
          ↔ (read_status_name status ≡ s))
enumerators_iff s force torque source policy state fault severity status = (
  enumerator_iff force_unit_name force_units s _ force_units-IsListed,
  enumerator_iff torque_unit_name torque_units s _ torque_units-IsListed,
  enumerator_iff source_name sources s _ sources-IsListed,
  enumerator_iff policy_name policies s _ policies-IsListed,
  enumerator_iff state_name states s _ states-IsListed,
  enumerator_iff fault_name faults s _ faults-IsListed,
  enumerator_iff severity_name severities s _ severities-IsListed,
  enumerator_iff read_status_name read_statuses s _ read_statuses-IsListed,
)

-- The codes of a text in capitals, as `toupper` of the classic locale has them.
abbrev capital : ℕ → ℕ
capital c = if leb 97 c && leb c 122 then c - 32 else c

abbrev codes : String → List ℕ
codes s = map code (chars s)

-- The name of a state or a fault in Python is its spelling in the core, in capitals.
pub names_are_capitals :
    (state : ClientState) (fault : FaultCode)
    → (codes (state_name state) ≡ map capital (codes (client_state_to_string state)))
      × (codes (fault_name fault) ≡ map capital (codes (fault_code_to_string fault)))
unfolding state_name fault_name client_state_to_string fault_code_to_string
names_are_capitals state fault = (
  elim state as (λ k. codes (state_name k) ≡ map capital (codes (client_state_to_string k))) [
    | stopped ↦ refl
    | _ ↦ refl
  ],
  elim fault as (λ k. codes (fault_name k) ≡ map capital (codes (fault_code_to_string k))) [
    | FaultCode.none ↦ refl
    | _ ↦ refl
  ],
)
