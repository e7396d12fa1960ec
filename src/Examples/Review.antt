-- ===== src/Examples/Review.antt =====
-- Examples of back-updates, deltas and the sentinel.
use epiphany_executor.Prelude.{◌||◌}
use epiphany_executor.Prelude.{
  ℕ, ◌≡◌, refl, String, Bool, true, false, List, [], ◌∷◌, ◌++◌, Dict, lookup, Distinct, eqb, arith,
}
use epiphany_executor.Value.{end}
use epiphany_executor.Ledger.{list_ledger}
use epiphany_executor.Lifecycle.{accepted}
use epiphany_executor.Lifecycle.Store.{RecoveryCursor}
use epiphany_executor.Scheduler.Dag.{Dag}
use epiphany_executor.Review.Delta.{compute_state_delta}
use epiphany_executor.Review.Delta.Roundtrip.{after_value, after_value-compute_state_delta}
use epiphany_executor.Review.BackUpdate.{default_budget}
use epiphany_executor.Review.BackUpdate.Bounded.{
  Request, back_updates, Written, back_updates-Written,
}
use epiphany_executor.Review.Sentinel.{latched_in, fresh, sweep}
use epiphany_executor.Review.Sentinel.Firing.{Unique, latches_of, deltas_of}
use epiphany_executor.Review.Sentinel.History.{
  Call, advance, sweeps, calls, calls_fire_once, sweep_misses_none,
}
use epiphany_executor.Examples.Data.{step_a}

abbrev request : Request
request = record { target = step_a; delta = end; at_depth = 1 }

abbrev was : RecoveryCursor
was = record { step_id = "a"; lifecycle_state = accepted; effect_ledger_cursor = 3 }

abbrev before : Dict ℕ
before = ("x", 1) ∷ ("y", 2) ∷ ("z", 3) ∷ []

abbrev after : Dict ℕ
after = ("y", 2) ∷ ("x", 5) ∷ ("w", 4) ∷ []

after-Distinct : Distinct after
after-Distinct = (refl, (refl, (refl, tt)))

abbrev dag : Dag
dag = ("a", []) ∷ ("b", "a" ∷ []) ∷ []

abbrev never : ℕ → String → Bool
never n s = false

abbrev history : List Call
history =
    sweeps never ("a" ∷ []) false
    ∷ sweeps never ("a" ∷ "b" ∷ []) false
    ∷ advance
    ∷ sweeps never ("a" ∷ []) true
    ∷ []

back_updates-Written_example :
    Written list_ledger default_budget []
      (back_updates list_ledger (request ∷ request ∷ []) default_budget []).1
back_updates-Written_example =
    back_updates-Written list_ledger (request ∷ request ∷ []) default_budget []

eqb_sound : (v w : ℕ) → eqb v w ≡ true → v ≡ w
eqb_sound v w h = ground arith

after_value-compute_state_delta_example :
    after_value (compute_state_delta eqb before after) "x" (lookup "x" before) ≡ lookup "x" after
after_value-compute_state_delta_example =
    after_value-compute_state_delta eqb before after "x" eqb_sound after-Distinct

calls_fire_once_example :
    Unique (latches_of (calls list_ledger history fresh []).signals)
    × ((calls list_ledger history fresh []).ledger
        ≡ [] ++ deltas_of (calls list_ledger history fresh []).signals)
calls_fire_once_example = calls_fire_once list_ledger history []

sweep_misses_none_example :
    ((latched_in
          (record { step = "b"; at = 0 })
          (latches_of (sweep list_ledger never ("a" ∷ "b" ∷ []) false fresh []).signals)
        || latched_in (record { step = "b"; at = 0 }) fresh.latched)
      ≡ true)
    × ((sweep list_ledger never ("a" ∷ "b" ∷ []) false fresh []).ledger
        ≡ [] ++ deltas_of (sweep list_ledger never ("a" ∷ "b" ∷ []) false fresh []).signals)
sweep_misses_none_example =
    sweep_misses_none list_ledger "b" never ("a" ∷ "b" ∷ []) fresh [] refl (λ n. refl)
