-- ===== src/Lifecycle/Store.antt =====
-- The ledger-backed store of epiphany_executor/lifecycle.py: cursors, `record`, `fold` and
-- `accepted_steps`.
pub mod Resume
pub mod Health
pub mod Abstract
use epiphany_executor.Prelude.{
  ℕ, String, ◌≡◌, refl, Bool, false, Option, none, some, List, [], ◌∷◌, Result, ok, err, ◌>>=◌,
  key_error, value_error, Dict, insert, lookup, if◌then◌else◌, ◌==◌, or_else,
}
use epiphany_executor.Value.{end}
use epiphany_executor.Ledger.{LedgerEntry, LedgerApi}
use epiphany_executor.Lifecycle.{
  LifecycleState, unstarted, in_flight, verified, accepted, blocked, failed, amended, awaiting,
  value, same_state, state_in, terminal_success,
}

pub record RecoveryCursor : Type 0 where
  pub step_id : String
  pub lifecycle_state : LifecycleState
  pub effect_ledger_cursor : ℕ

-- `RecoveryCursor.as_entry`
unfoldable pub as_entry : RecoveryCursor → LedgerEntry
as_entry c = record {
  kind = some "lifecycle-transition";
  node = some c.step_id;
  lifecycle_state = some (value c.lifecycle_state);
  effect_ledger_cursor = some c.effect_ledger_cursor;
  depth = none;
  epoch = none;
  other = end;
}

-- `LifecycleState(text)`
unfoldable pub parse_state : String → Result LifecycleState
parse_state s =
    if s == "UNSTARTED"
    then ok unstarted
    else if s == "IN_FLIGHT"
    then ok in_flight
    else if s == "VERIFIED"
    then ok verified
    else if s == "ACCEPTED"
    then ok accepted
    else if s == "BLOCKED"
    then ok blocked
    else if s == "FAILED"
    then ok failed
    else if s == "AMENDED"
    then ok amended
    else if s == "AWAITING"
    then ok awaiting
    else err value_error

parse_state-value : (s : LifecycleState) → parse_state (value s) ≡ ok s
unfolding parse_state
parse_state-value unstarted = refl
parse_state-value _ = refl

-- `entry.get("kind") == k`
abbrev pub has_kind : LedgerEntry → String → Bool
has_kind e k = elim e.kind [ none ↦ false | some j ↦ j == k ]

-- `LifecycleState(entry["lifecycle_state"])`
entry_state : Option String → Result LifecycleState
unfolding parse_state
entry_state none = err key_error
entry_state (some s) = parse_state s

-- the part of the loop's body below the two `continue` tests
fold_cursor : String → LedgerEntry → Dict RecoveryCursor → Result (Dict RecoveryCursor)
unfolding entry_state
fold_cursor sid e cursors = do
  state ← entry_state e.lifecycle_state
  ok (
      insert sid
        (record {
          step_id = sid;
          lifecycle_state = state;
          effect_ledger_cursor = or_else e.effect_ledger_cursor 0;
        })
        cursors)

-- `if sid is None: continue`
abbrev fold_node : Option String → LedgerEntry → Dict RecoveryCursor → Result (Dict RecoveryCursor)
fold_node none e cursors = ok cursors
fold_node (some sid) e cursors = fold_cursor sid e cursors

-- one round of the loop of `LifecycleStore.fold`
fold_entry : LedgerEntry → Dict RecoveryCursor → Result (Dict RecoveryCursor)
unfolding fold_cursor
fold_entry e cursors =
    if has_kind e "lifecycle-transition" then fold_node e.node e cursors else ok cursors

unfoldable pub fold_entries : List LedgerEntry → Dict RecoveryCursor → Result (Dict RecoveryCursor)
unfolding fold_entry
fold_entries [] cursors = ok cursors
fold_entries (e ∷ es) cursors = do next ← fold_entry e cursors; fold_entries es next

-- the ids of the cursors whose state is in TERMINAL_SUCCESS
unfoldable pub accepted_ids : Dict RecoveryCursor → List String
accepted_ids [] = []
accepted_ids ((sid, c) ∷ cursors) =
    let rest = accepted_ids cursors in
    if state_in c.lifecycle_state terminal_success then sid ∷ rest else rest

module _ (api : LedgerApi) where
  open api use {Ledger, append, read}

  -- `LifecycleStore.record`
  unfoldable pub record_cursor : Ledger → RecoveryCursor → Ledger
  unfolding as_entry
  record_cursor l c = append l (as_entry c)

  -- `LifecycleStore.fold`
  unfoldable pub fold : Ledger → Result (Dict RecoveryCursor)
  unfolding fold_entries
  fold l = fold_entries (read l) []

  -- `LifecycleStore.accepted_steps`
  unfoldable pub accepted_steps : Ledger → Result (List String)
  unfolding fold accepted_ids
  accepted_steps l = do cursors ← fold l; ok (accepted_ids cursors)
