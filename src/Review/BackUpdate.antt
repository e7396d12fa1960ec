-- ===== src/Review/BackUpdate.antt =====
-- `BackUpdateBudget`, `back_update` and `reopen_cursor` of epiphany_executor/review.py. The budget
-- and the ledger outlive an exception, so that they come back beside it.
pub mod Bounded
pub mod Reopen
use epiphany_executor.Prelude.{
  ℕ, ◌+◌, String, Bool, true, false, Option, none, some, List, [], ◌∷◌, Result, ok, err,
  back_update_exhausted, irreversible_undo_forbidden, if◌then◌else◌, ltb,
}
use epiphany_executor.Value.{Value, Fields, field, end, obj, str}
use epiphany_executor.Ledger.{LedgerEntry, LedgerApi}
use epiphany_executor.Contract.{Contract}
use epiphany_executor.Lifecycle.{LifecycleState, accepted, amended, in_flight, same_state}
use epiphany_executor.Lifecycle.Store.{RecoveryCursor}
use epiphany_executor.Scheduler.Static.{static_effect_class, is_external}

pub record Budget : Type 0 where
  pub max_depth : ℕ
  pub max_total : ℕ
  pub spent : ℕ

abbrev pub default_budget : Budget
default_budget = record { max_depth = 5; max_total = 50; spent = 0 }

-- `BackUpdateBudget.charge`: the count goes up before the test that may raise.
unfoldable pub charge : Budget → Result (Unit {0}) × Budget
charge b =
    let b' = record b { spent = b.spent + 1 } in
    if ltb b'.max_total b'.spent then (err back_update_exhausted, b') else (ok tt, b')

pub record BackUpdate : Type 0 where
  pub target_step : Value
  pub correcting_delta : Fields
  pub reopened : Bool
  pub depth : ℕ

abbrev node_text : Value → Option String
node_text (str s) = some s
node_text v = none

unfoldable pub correcting_entry : Value → Fields → ℕ → LedgerEntry
correcting_entry sid delta depth = record {
  kind = some "back-update-correcting-delta";
  node = node_text sid;
  lifecycle_state = none;
  effect_ledger_cursor = none;
  depth = some depth;
  epoch = none;
  other = field "correcting_delta" (obj delta) (field "reopen" (str "needs-re-verify") end);
}

module _ (api : LedgerApi) where
  open api use {Ledger, append}

  -- what follows the charge
  unfoldable pub after_charge :
      Contract
      → Fields
      → ℕ
      → Result (Unit {0}) × Budget
      → Ledger
      → Result BackUpdate × Budget × Ledger
  unfolding correcting_entry
  after_charge target delta depth (err e, b) l = (err e, b, l)
  after_charge target delta depth (ok u, b) l = (
    ok (record {
      target_step = target.step_id;
      correcting_delta = delta;
      reopened = true;
      depth = depth;
    }),
    b,
    append l (correcting_entry target.step_id delta depth),
  )

  unfoldable pub back_update :
      Contract → Fields → ℕ → Budget → Ledger → Result BackUpdate × Budget × Ledger
  unfolding after_charge charge
  back_update target delta depth b l =
      if ltb b.max_depth depth
      then (err back_update_exhausted, b, l)
      else if is_external (static_effect_class target)
      then (err irreversible_undo_forbidden, b, l)
      else after_charge target delta depth (charge b) l

unfoldable pub reopen_cursor : RecoveryCursor → List RecoveryCursor
reopen_cursor c =
    if same_state c.lifecycle_state accepted
    then record c { lifecycle_state = amended } ∷ record c { lifecycle_state = in_flight } ∷ []
    else record c { lifecycle_state = in_flight } ∷ []
