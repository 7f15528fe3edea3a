-- ===== src/Core/Capability.antt =====
-- crates/zanei-core/src/capability.rs: the abilities that collectors require, and their state.
-- A `BTreeSet<Capability>` is a list of which only membership is read.
use zanei.Prelude.{
  Bool, true, false, not, ◌&&◌, ◌||◌, Option, none, some, List, any, all, if◌then◌else◌,
}

pub data Capability : Type 0 where
  read_accessibility_tree observe_input automate_browser automate_safari capture_screen : Capability

pub data CapabilityState : Type 0 where
  available action_required deferred unavailable : CapabilityState

abbrev pub capability_eq : Capability → Capability → Bool
capability_eq read_accessibility_tree read_accessibility_tree = true
capability_eq observe_input observe_input = true
capability_eq automate_browser automate_browser = true
capability_eq automate_safari automate_safari = true
capability_eq capture_screen capture_screen = true
capability_eq _ _ = false

abbrev pub is_available : CapabilityState → Bool
is_available available = true
is_available _ = false

abbrev pub is_deferred : CapabilityState → Bool
is_deferred deferred = true
is_deferred _ = false

abbrev pub is_browser_automation : Capability → Bool
is_browser_automation automate_browser = true
is_browser_automation automate_safari = true
is_browser_automation _ = false

pub record DaemonCapabilities : Type 0 where
  pub required : List Capability
  pub read_accessibility_tree_state : CapabilityState
  pub observe_input_state : CapabilityState
  pub automate_browser_state : CapabilityState
  pub automate_safari_state : Option CapabilityState
  pub capture_screen_state : Option CapabilityState

abbrev or_deferred : Option CapabilityState → CapabilityState
or_deferred none = deferred
or_deferred (some s) = s

unfoldable pub state : DaemonCapabilities → Capability → CapabilityState
state c read_accessibility_tree = c.read_accessibility_tree_state
state c observe_input = c.observe_input_state
state c automate_browser = c.automate_browser_state
state c automate_safari = or_deferred c.automate_safari_state
state c capture_screen = or_deferred c.capture_screen_state

abbrev pub contains : List Capability → Capability → Bool
contains set c = any (capability_eq c) set

abbrev is_some : Option CapabilityState → Bool
is_some none = false
is_some (some s) = true

-- One required capability is ready.
abbrev pub usable : DaemonCapabilities → Capability → Bool
usable d c = is_available (state d c) || (is_browser_automation c && is_deferred (state d c))

-- `None` when the snapshot does not cover what is asked.
unfoldable pub ready_for : DaemonCapabilities → List Capability → Option Bool
unfolding state
ready_for d set =
    if all (contains d.required) set
      && (not (contains set automate_safari) || is_some d.automate_safari_state)
    then some (all (usable d) set)
    else none

unfoldable pub ready : DaemonCapabilities → Bool
unfolding ready_for
ready d = elim (ready_for d d.required) [ none ↦ false | some r ↦ r ]

-- supervisor.rs `capabilities_available`: unlike `ready_for`, a deferred browser is not enough.
unfoldable pub capabilities_available : List Capability → DaemonCapabilities → Bool
unfolding state
capabilities_available set d = all (λ c. is_available (state d c)) set
