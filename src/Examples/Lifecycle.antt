-- ===== src/Examples/Lifecycle.antt =====
-- Examples of the lifecycle and its ledger.
use epiphany_executor.Prelude.{
  ◌≡◌, refl, String, none, some, List, [], ◌∷◌, ◌++◌, ok, Dict, lookup, elem,
}
use epiphany_executor.Value.{end}
use epiphany_executor.Ledger.{LedgerEntry, list_ledger}
use epiphany_executor.Lifecycle.{
  LifecycleState, unstarted, in_flight, verified, accepted, amended, transition,
}
use epiphany_executor.Lifecycle.Paths.{run_transitions, accepted_after_verification}
use epiphany_executor.Lifecycle.Store.{RecoveryCursor, fold, accepted_steps}
use epiphany_executor.Lifecycle.Store.Resume.{
  record_cursors, first_of_two, last_for, is_accepted, fold-record_last,
  accepted_steps_after_record,
}

abbrev at_state : String → LifecycleState → RecoveryCursor
at_state sid s = record { step_id = sid; lifecycle_state = s; effect_ledger_cursor = 0 }

abbrev cursors : List RecoveryCursor
cursors =
    at_state "b" in_flight
    ∷ at_state "a" in_flight
    ∷ at_state "a" verified
    ∷ at_state "a" accepted
    ∷ []

abbrev first_run : List LifecycleState
first_run = in_flight ∷ verified ∷ accepted ∷ []

-- an entry that no lifecycle reads
abbrev delta : LedgerEntry
delta = record {
  kind = some "sentinel-regression-forward-delta";
  node = some "a";
  lifecycle_state = none;
  effect_ledger_cursor = none;
  depth = none;
  epoch = some 0;
  other = end;
}

run_transitions-first : run_transitions unstarted first_run ≡ ok accepted
unfolding run_transitions transition
run_transitions-first = refl

run_transitions-reopen : run_transitions accepted (amended ∷ in_flight ∷ []) ≡ ok in_flight
unfolding run_transitions transition
run_transitions-reopen = refl

fold-empty : fold list_ledger [] ≡ ok []
unfolding fold
fold-empty = refl

accepted_after_verification_example :
    (before : List LifecycleState) × (first_run ≡ before ++ in_flight ∷ verified ∷ accepted ∷ [])
accepted_after_verification_example = accepted_after_verification first_run run_transitions-first

fold-record_last_example :
    (d : Dict RecoveryCursor) × (fold list_ledger (record_cursors list_ledger [] cursors) ≡ ok d)
    × ((sid : String) → lookup sid d ≡ first_of_two (last_for sid cursors) (lookup sid []))
fold-record_last_example = fold-record_last list_ledger [] cursors [] fold-empty

accepted_steps_after_record_example :
    (ids : List String) × (accepted_steps list_ledger (record_cursors list_ledger [] cursors)
      ≡ ok ids)
    × ((sid : String)
        → elem sid ids ≡ is_accepted (first_of_two (last_for sid cursors) (lookup sid [])))
accepted_steps_after_record_example =
    accepted_steps_after_record list_ledger [] cursors [] fold-empty
