-- ===== src/Review/BackUpdate/Reopen.antt =====
-- `reopen_cursor` of epiphany_executor/review.py against the transition table of lifecycle.py.
use epiphany_executor.Prelude.{◌≡◌, refl, List, [], ◌∷◌, Result, ok, err, illegal_transition}
use epiphany_executor.Lifecycle.{LifecycleState, unstarted, in_flight, verified, transition}
use epiphany_executor.Lifecycle.Paths.{run_transitions}
use epiphany_executor.Lifecycle.Store.{RecoveryCursor}
use epiphany_executor.Review.BackUpdate.{reopen_cursor}

abbrev pub states_of : List RecoveryCursor → List LifecycleState
states_of [] = []
states_of (c ∷ cs) = c.lifecycle_state ∷ states_of cs

-- What the table says about re-opening a step in a state.
abbrev pub reopened_from : LifecycleState → Result LifecycleState
reopened_from verified = err illegal_transition
reopened_from in_flight = err illegal_transition
reopened_from _ = ok in_flight

-- The transitions that `reopen_cursor` emits take the step to IN_FLIGHT through the transition
-- table from every state but VERIFIED and IN_FLIGHT; from these two the table rejects them.
pub reopen_cursor-transitions :
    (c : RecoveryCursor)
    → run_transitions c.lifecycle_state (states_of (reopen_cursor c))
      ≡ reopened_from c.lifecycle_state
unfolding reopen_cursor run_transitions transition
reopen_cursor-transitions c = by_state c.lifecycle_state
  where
    by_state :
        (s : LifecycleState)
        → run_transitions s (states_of (reopen_cursor (record c { lifecycle_state = s })))
          ≡ reopened_from s
    by_state unstarted = refl
    by_state _ = refl
