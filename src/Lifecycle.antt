-- ===== src/Lifecycle.antt =====
-- epiphany_executor/lifecycle.py: the step lifecycle and its transition table. The ledger-backed
-- store and the barrier order are in the modules below.
pub mod Paths
pub mod Store
pub mod Barrier
use mathlib.Core.Bool.{Bool, true, false}
use epiphany_executor.Prelude.{
  String, ◌≡◌, refl, Option, none, some, List, [], ◌∷◌, Result, ok, err, illegal_transition,
  if◌then◌else◌, ◌==◌, ◌||◌,
}

pub data LifecycleState : Type 0 where
  unstarted in_flight verified accepted blocked failed amended awaiting : LifecycleState

pub LifecycleState-discrete : Discrete LifecycleState
LifecycleState-discrete = hlevel

-- `state.value`
abbrev pub value : LifecycleState → String
value unstarted = "UNSTARTED"
value in_flight = "IN_FLIGHT"
value verified = "VERIFIED"
value accepted = "ACCEPTED"
value blocked = "BLOCKED"
value failed = "FAILED"
value amended = "AMENDED"
value awaiting = "AWAITING"

-- `a is b`
abbrev pub same_state : LifecycleState → LifecycleState → Bool
same_state a b = value a == value b

abbrev pub legal_transitions : LifecycleState → List LifecycleState
legal_transitions unstarted = in_flight ∷ blocked ∷ awaiting ∷ []
legal_transitions awaiting = in_flight ∷ blocked ∷ failed ∷ []
legal_transitions in_flight = verified ∷ failed ∷ blocked ∷ []
legal_transitions verified = accepted ∷ failed ∷ []
legal_transitions accepted = amended ∷ []
legal_transitions amended = in_flight ∷ []
legal_transitions blocked = in_flight ∷ unstarted ∷ []
legal_transitions failed = in_flight ∷ unstarted ∷ []

abbrev pub state_in : LifecycleState → List LifecycleState → Bool
state_in s [] = false
state_in s (t ∷ ts) = same_state t s || state_in s ts

abbrev pub terminal_success : List LifecycleState
terminal_success = accepted ∷ []

abbrev pub halt_states : List LifecycleState
halt_states = failed ∷ blocked ∷ []

unfoldable pub transition : LifecycleState → LifecycleState → Result LifecycleState
transition current target =
    if state_in target (legal_transitions current) then ok target else err illegal_transition
