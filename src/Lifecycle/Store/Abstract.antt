-- ===== src/Lifecycle/Store/Abstract.antt =====
-- The store of epiphany_executor/lifecycle.py as the map from steps to cursors that its callers see.
use epiphany_executor.Prelude.{
  String, false, ◌≡◌, ◌∙◌, ap, Option, some, List, [], ◌∷◌, ok, Dict, lookup, elem, if◌then◌else◌,
  ◌==◌, arith,
}
use epiphany_executor.Ledger.{LedgerEntry, LedgerApi}
use epiphany_executor.Lifecycle.Store.{
  RecoveryCursor, has_kind, record_cursor, fold, accepted_steps,
}
use epiphany_executor.Lifecycle.Store.Resume.{
  is_accepted, fold-record_last, accepted_steps_after_record, fold-append_other,
}

abbrev pub CursorMap : Type 0
CursorMap = String → Option RecoveryCursor

-- The map with one cursor set.
abbrev pub set_at : RecoveryCursor → CursorMap → CursorMap
set_at c f sid = if c.step_id == sid then some c else f sid

module _ (api : LedgerApi) where
  open api use {Ledger, append}

  -- The ledger folds to the map.
  abbrev pub Represents : Ledger → CursorMap → Type 0
  Represents l f =
      (d : Dict RecoveryCursor) × (fold api l ≡ ok d) × ((sid : String) → lookup sid d ≡ f sid)

  -- Recording a cursor on a ledger that represents a map of cursors gives one that represents the
  -- map with that step's cursor set and every other step's unchanged.
  pub record_cursor-Represents :
      (l : Ledger) (f : CursorMap) (c : RecoveryCursor)
      → Represents l f
      → Represents (record_cursor api l c) (set_at c f)
  record_cursor-Represents l f c (d, folded, same) =
      let (d', folded', looks) = fold-record_last api l (c ∷ []) d folded in
      (d', folded', λ sid. looks sid ∙ ground (arith, same sid))

  -- What `accepted_steps` lists of a ledger that represents a map are the steps accepted in the map.
  pub accepted_steps-Represents :
      (l : Ledger) (f : CursorMap)
      → Represents l f
      → (ids : List String) × (accepted_steps api l ≡ ok ids)
        × ((sid : String) → elem sid ids ≡ is_accepted (f sid))
  accepted_steps-Represents l f (d, folded, same) =
      let (ids, listed, members) = accepted_steps_after_record api l [] d folded in
      (ids, listed, λ sid. members sid ∙ ap is_accepted (same sid))

  -- An entry of another kind leaves the map.
  pub append-Represents :
      (l : Ledger) (f : CursorMap) (e : LedgerEntry)
      → has_kind e "lifecycle-transition" ≡ false
      → Represents l f
      → Represents (append l e) f
  append-Represents l f e other (d, folded, same) =
      (d, fold-append_other api l e other ∙ folded, same)
