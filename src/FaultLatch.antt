-- ===== src/FaultLatch.antt =====
-- core/src/detail/fault_latch.hpp and fault_latch.cpp. The atomic code is a value of the caller's state;
-- `publish` runs under the data lock and returns the new code and snapshot, and whether it was first.
use Prim.Native.String.{String}
use py_net_ft.Common.{◌≡◌, refl, Bool, true, false, not, List, [], ◌∷◌, ◌≢◌, arith}
use py_net_ft.Types.{FaultCode, ClientState, HealthSnapshot}

abbrev pub is_none : FaultCode → Bool
is_none FaultCode.none = true
is_none _ = false

-- `faulted()`.
abbrev pub is_faulted : FaultCode → Bool
is_faulted code = not (is_none code)

-- The code after `reset()`.
abbrev pub reset : FaultCode
reset = FaultCode.none

pub record Published (F : Type 0) : Type 0 where
  pub latch : FaultCode
  pub health : HealthSnapshot F
  pub first : Bool

module _ {F : Type 0} where
  -- The compare-and-exchange from `FaultCode::None`, and the write of the snapshot where it succeeds.
  unfoldable pub publish : FaultCode → FaultCode → String → HealthSnapshot F → Published F
  publish FaultCode.none code message h = record {
    latch = code;
    health = record h { state = ClientState.faulted; fault_code = code; last_error = message };
    first = true;
  }
  publish latch code message h = record { latch = latch; health = h; first = false }

  -- Faults that are published one after another.
  unfoldable pub publish_all :
      FaultCode → List (FaultCode × String) → HealthSnapshot F → Published F
  publish_all latch [] h = record { latch = latch; health = h; first = false }
  publish_all latch ((code, message) ∷ faults) h =
      let p = publish latch code message h in publish_all p.latch faults p.health

  publish_all_latched :
      (code : FaultCode) (faults : List (FaultCode × String)) (h : HealthSnapshot F)
      → code ≢ FaultCode.none
      → publish_all code faults h ≡ record { latch = code; health = h; first = false }
  unfolding publish_all publish
  publish_all_latched code [] h n = refl
  publish_all_latched FaultCode.none ((c, m) ∷ faults) h n = absurd (n refl)
  publish_all_latched code ((c, m) ∷ faults) h n = publish_all_latched code faults h n

  -- From an empty latch the first fault wins: however many are published after it, the latch and the
  -- snapshot show the first one, with its message, and nothing else of the snapshot changes.
  pub publish_all_first :
      (code : FaultCode) (message : String) (faults : List (FaultCode × String))
      (h : HealthSnapshot F)
      → code ≢ FaultCode.none
      → let p = publish_all FaultCode.none ((code, message) ∷ faults) h in
        (p.latch ≡ code)
        × (p.health
            ≡ record h { state = ClientState.faulted; fault_code = code; last_error = message })
  unfolding publish_all publish
  publish_all_first code message faults h n = ground (
    arith,
    publish_all_latched code faults
        (record h { state = ClientState.faulted; fault_code = code; last_error = message }) n,
  )
