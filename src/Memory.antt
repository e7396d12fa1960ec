-- ===== src/Memory.antt =====
-- epiphany_executor/memory.py: the store of priors, what a run's ledger is distilled to, and the
-- hint that the next run gets. Reading and writing the store's file is not modelled.
pub mod Advisory
use epiphany_executor.Prelude.{
  ℕ, ◌+◌, String, Bool, true, false, not, ◌&&◌, ◌||◌, Option, none, some, List, [], ◌∷◌, ◌++◌,
  Result, ok, err, ◌>>=◌, key_error, Dict, insert, lookup, sorted, dedup, map, is_empty, or_else,
  if◌then◌else◌, ◌==◌,
}
use epiphany_executor.Value.{
  Value, null, bool, nat, negative, float, str, arr, obj, Fields, end, field, of_list, get, truthy,
}
use epiphany_executor.Ledger.{LedgerEntry}
use epiphany_executor.Lifecycle.Store.{has_kind}

pub record Prior : Type 0 where
  pub key : String
  pub kind : String
  pub value : Value
  pub version : ℕ
  pub source_run : String
  pub revoked : Bool

-- the field `priors` of the store
abbrev pub PriorStore : Type 0
PriorStore = Dict Prior

-- `if existing and not existing.revoked: prior.version = existing.version + 1`
abbrev pub versioned : Option Prior → Prior → Prior
versioned none prior = prior
versioned (some existing) prior =
    if existing.revoked then prior else record prior { version = existing.version + 1 }

unfoldable pub put : Prior → PriorStore → PriorStore
put prior store = insert prior.key (versioned (lookup prior.key store) prior) store

abbrev pub revoke_found : Option Prior → String → PriorStore → PriorStore
revoke_found none key store = store
revoke_found (some p) key store = insert key (record p { revoked = true }) store

unfoldable pub revoke : String → PriorStore → PriorStore
revoke key store = revoke_found (lookup key store) key store

unfoldable pub active : PriorStore → PriorStore
active [] = []
active ((k, p) ∷ store) = let rest = active store in if p.revoked then rest else (k, p) ∷ rest

-- `e.get("lifecycle_state") == "FAILED"` on an entry of the lifecycle
abbrev is_failure : LedgerEntry → Bool
is_failure e =
    has_kind e "lifecycle-transition"
    && elim e.lifecycle_state [ none ↦ false | some s ↦ s == "FAILED" ]

-- `e["node"]`
abbrev node_of : Option String → Result String
node_of none = err key_error
node_of (some sid) = ok sid

unfoldable pub failed_nodes : List LedgerEntry → Result (List String)
failed_nodes [] = ok []
failed_nodes (e ∷ es) =
    if is_failure e
    then (do sid ← node_of e.node; rest ← failed_nodes es; ok (sid ∷ rest))
    else failed_nodes es

-- the constructor with its defaults
abbrev pub new_prior : String → String → Value → String → Prior
new_prior key kind value run_id = record {
  key = key;
  kind = kind;
  value = value;
  version = 1;
  source_run = run_id;
  revoked = false;
}

abbrev pub failure_priors : List String → String → List Prior
failure_priors failed run_id =
    if is_empty failed
    then []
    else new_prior "failure_signatures" "failure-signature"
        (arr (of_list (map (λ s. str s) (sorted (dedup failed))))) run_id
      ∷ []

abbrev pub shape_priors : Value → String → List Prior
shape_priors antichain_widths run_id =
    if truthy antichain_widths
    then new_prior "antichain_widths" "plan-shape" antichain_widths run_id ∷ []
    else []

unfoldable pub distill_priors : List LedgerEntry → String → Value → Value → Result (List Prior)
unfolding failed_nodes
distill_priors entries run_id antichain_widths budget_actuals = do
  failed ← failed_nodes entries
  ok (
      failure_priors failed run_id
      ++ (shape_priors antichain_widths run_id
          ++ (if truthy budget_actuals
              then new_prior "budget_calibration" "budget-calibration" budget_actuals run_id ∷ []
              else [])))

-- `if isinstance(cal, dict) and cal.get("suggested_tier")`
abbrev pub hint_of : Option Prior → Fields
hint_of none = end
hint_of (some p) = elim p.value [
  | obj cal ↦
      if truthy (get "suggested_tier" cal)
      then field "suggested_tier" (get "suggested_tier" cal) end
      else end
  | _ ↦ end
]

unfoldable pub prior_to_scheduling_hint : PriorStore → Fields
unfolding active
prior_to_scheduling_hint store = hint_of (lookup "budget_calibration" (active store))
