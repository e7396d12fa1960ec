-- ===== src/Lifecycle/Paths.antt =====
-- Sequences of transitions in the table of epiphany_executor/lifecycle.py.
use epiphany_executor.Prelude.{◌≡◌, refl, List, [], ◌∷◌, ◌++◌, Result, ok, ◌>>=◌, arith, >>=-eq-ok}
use epiphany_executor.Lifecycle.{
  LifecycleState, unstarted, in_flight, verified, accepted, amended, transition,
}

-- A sequence of transitions, each validated by `transition`; the last state reached.
unfoldable pub run_transitions : LifecycleState → List LifecycleState → Result LifecycleState
run_transitions current [] = ok current
run_transitions current (target ∷ rest) = do
  next ← transition current target
  run_transitions next rest

transition-eq-ok : (s t u : LifecycleState) → transition s t ≡ ok u → u ≡ t
unfolding transition
transition-eq-ok s t u h = ground arith

into_accepted : (s : LifecycleState) → transition s accepted ≡ ok accepted → s ≡ verified
unfolding transition
into_accepted verified h = refl
into_accepted unstarted h = cc
into_accepted _ h = cc

into_verified : (s : LifecycleState) → transition s verified ≡ ok verified → s ≡ in_flight
unfolding transition
into_verified in_flight h = refl
into_verified unstarted h = cc
into_verified _ h = cc

out_of_accepted : (t : LifecycleState) → transition accepted t ≡ ok t → t ≡ amended
unfolding transition
out_of_accepted amended h = refl
out_of_accepted unstarted h = cc
out_of_accepted _ h = cc

out_of_amended : (t : LifecycleState) → transition amended t ≡ ok t → t ≡ in_flight
unfolding transition
out_of_amended in_flight h = refl
out_of_amended unstarted h = cc
out_of_amended _ h = cc

-- The first step of a validated run is legal, and the rest is a validated run.
run_transitions-cons :
    (s t : LifecycleState) (rest : List LifecycleState) {u : LifecycleState}
    → run_transitions s (t ∷ rest) ≡ ok u
    → (transition s t ≡ ok t) × (run_transitions t rest ≡ ok u)
unfolding run_transitions
run_transitions-cons s t rest h =
    let (next, legal, ends) = >>=-eq-ok (transition s t) (λ n. run_transitions n rest) h in
    let e = transition-eq-ok s t next legal in (rw e at legal, rw e at ends)

abbrev verification : List LifecycleState
verification = in_flight ∷ verified ∷ accepted ∷ []

-- How a validated run that ends in accepted can end.
data EndsAccepted (s : LifecycleState) (ts : List LifecycleState) : Type 0 where
  at_once : s ≡ accepted → ts ≡ [] → EndsAccepted s ts
  from_verified : s ≡ verified → ts ≡ accepted ∷ [] → EndsAccepted s ts
  from_in_flight : s ≡ in_flight → ts ≡ verified ∷ accepted ∷ [] → EndsAccepted s ts
  through : (before : List LifecycleState) → ts ≡ before ++ verification → EndsAccepted s ts

EndsAccepted-cons :
    (s t : LifecycleState) (rest : List LifecycleState)
    → transition s t ≡ ok t
    → EndsAccepted t rest
    → EndsAccepted s (t ∷ rest)
EndsAccepted-cons s t rest legal (at_once e f) =
    from_verified (into_accepted s (rw e at legal)) (cc)
EndsAccepted-cons s t rest legal (from_verified e f) =
    from_in_flight (into_verified s (rw e at legal)) (cc)
EndsAccepted-cons s t rest legal (from_in_flight e f) = through [] (cc)
EndsAccepted-cons s t rest legal (through before f) = through (t ∷ before) (cc)

run-EndsAccepted :
    (s : LifecycleState) (ts : List LifecycleState)
    → run_transitions s ts ≡ ok accepted
    → EndsAccepted s ts
unfolding run_transitions
run-EndsAccepted s [] h = at_once (cc) refl
run-EndsAccepted s (t ∷ rest) h =
    let (legal, ends) = run_transitions-cons s t rest h in
    EndsAccepted-cons s t rest legal (run-EndsAccepted t rest ends)

-- A validated sequence of transitions that takes an UNSTARTED step to ACCEPTED ends with
-- IN_FLIGHT, VERIFIED, ACCEPTED: no step is accepted without being executed and verified.
pub accepted_after_verification :
    (ts : List LifecycleState)
    → run_transitions unstarted ts ≡ ok accepted
    → (before : List LifecycleState) × (ts ≡ before ++ in_flight ∷ verified ∷ accepted ∷ [])
accepted_after_verification ts h = elim (run-EndsAccepted unstarted ts h) [
  | at_once e f ↦ cc
  | from_verified e f ↦ cc
  | from_in_flight e f ↦ cc
  | through before f ↦ (before, f)
]

-- A validated sequence of transitions that takes an ACCEPTED step back to IN_FLIGHT begins with
-- AMENDED, IN_FLIGHT: an accepted step is never re-opened silently.
pub reopened_through_amended :
    (ts : List LifecycleState)
    → run_transitions accepted ts ≡ ok in_flight
    → (rest : List LifecycleState) × (ts ≡ amended ∷ in_flight ∷ rest)
unfolding run_transitions
reopened_through_amended [] h = cc
reopened_through_amended (t ∷ []) h =
    let (legal, ends) = run_transitions-cons accepted t [] h in cc (out_of_accepted t legal, ends)
reopened_through_amended (t ∷ u ∷ rest) h =
    let (legal, ends) = run_transitions-cons accepted t (u ∷ rest) h in
    let e = out_of_accepted t legal in
    let (next, _) = run_transitions-cons t u rest ends in
    (rest, cc (e, out_of_amended u (rw e at next)))

-- A legal way from each state to ACCEPTED.
abbrev route : LifecycleState → List LifecycleState
route accepted = []
route verified = accepted ∷ []
route in_flight = verified ∷ accepted ∷ []
route _ = verification

-- From every lifecycle state some validated sequence of transitions reaches ACCEPTED: the table
-- has no dead end.
pub every_state_can_be_accepted :
    (s : LifecycleState) → (ts : List LifecycleState) × (run_transitions s ts ≡ ok accepted)
unfolding run_transitions transition
every_state_can_be_accepted accepted = ([], refl)
every_state_can_be_accepted verified = (route verified, refl)
every_state_can_be_accepted s = (route s, refl)
