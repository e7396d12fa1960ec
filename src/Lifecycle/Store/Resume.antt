-- ===== src/Lifecycle/Store/Resume.antt =====
-- Kill and resume on the store of epiphany_executor/lifecycle.py: recording cursors and folding them.
use mathlib.Core.Path.{fun_ext, subst}
use epiphany_executor.Prelude.{
  String, ◌≡◌, refl, ap, sym, ◌∙◌, Bool, Option, none, some, List, [], ◌∷◌, ◌++◌, ok, ◌>>=◌, Dict,
  insert, lookup, if◌then◌else◌, ◌==◌, arith, lookup-insert, elem, eq_iff, false, Distinct,
  insert-Distinct, ok_inj, >>=-eq-ok, keys, true, bind_assoc, bind-ok, Bool-cases, inl, inr,
}
use epiphany_executor.Ledger.{LedgerEntry, LedgerApi}
use epiphany_executor.Lifecycle.{state_in, terminal_success}
use epiphany_executor.Lifecycle.Store.{
  RecoveryCursor, fold_node, as_entry, parse_state-value, has_kind, fold_entry, fold_entries,
  accepted_ids, record_cursor, fold, accepted_steps, fold_cursor, entry_state,
}

-- What a cursor adds to the folded dictionary.
abbrev pub set_cursor : RecoveryCursor → Dict RecoveryCursor → Dict RecoveryCursor
set_cursor c d = insert c.step_id c d

abbrev pub set_cursors : List RecoveryCursor → Dict RecoveryCursor → Dict RecoveryCursor
set_cursors [] d = d
set_cursors (c ∷ cs) d = set_cursors cs (set_cursor c d)

-- The last cursor for a step in a list, if there is one.
abbrev pub first_of_two : Option RecoveryCursor → Option RecoveryCursor → Option RecoveryCursor
first_of_two none b = b
first_of_two (some a) b = some a

abbrev pub last_for : String → List RecoveryCursor → Option RecoveryCursor
last_for sid [] = none
last_for sid (c ∷ cs) = first_of_two (last_for sid cs) (if c.step_id == sid then some c else none)

lookup-set_cursors :
    (sid : String) (cs : List RecoveryCursor) (d : Dict RecoveryCursor)
    → lookup sid (set_cursors cs d) ≡ first_of_two (last_for sid cs) (lookup sid d)
lookup-set_cursors sid [] d = refl
lookup-set_cursors sid (c ∷ cs) d =
    lookup-set_cursors sid cs (set_cursor c d) ∙ ground (arith, lookup-insert c.step_id sid c d)

fold_entries-append :
    (xs ys : List LedgerEntry) (d : Dict RecoveryCursor)
    → fold_entries (xs ++ ys) d ≡ (fold_entries xs d >>= fold_entries ys)
unfolding fold_entries
fold_entries-append [] ys d = refl
fold_entries-append (x ∷ xs) ys d =
    rw (fun_ext (fold_entries-append xs ys))
      (sym (bind_assoc (fold_entry x d) (fold_entries xs) (fold_entries ys)))

fold_entry-as_entry :
    (c : RecoveryCursor) (d : Dict RecoveryCursor) → fold_entry (as_entry c) d ≡ ok (set_cursor c d)
unfolding fold_entry as_entry
fold_entry-as_entry c d = rw (parse_state-value c.lifecycle_state) refl

abbrev pub record_cursors : (api : LedgerApi) → api.Ledger → List RecoveryCursor → api.Ledger
record_cursors api l [] = l
record_cursors api l (c ∷ cs) = record_cursors api (record_cursor api l c) cs

abbrev pub is_accepted : Option RecoveryCursor → Bool
is_accepted none = false
is_accepted (some c) = state_in c.lifecycle_state terminal_success

accepted_ids_absent :
    (sid : String) (d : Dict RecoveryCursor)
    → elem sid (keys d) ≡ false
    → elem sid (accepted_ids d) ≡ false
unfolding accepted_ids
accepted_ids_absent sid [] h = refl
accepted_ids_absent sid ((k, c) ∷ d) h = ground (arith, accepted_ids_absent sid d)

elem-accepted_ids :
    (sid : String) (d : Dict RecoveryCursor)
    → Distinct d
    → elem sid (accepted_ids d) ≡ is_accepted (lookup sid d)
unfolding accepted_ids
elem-accepted_ids sid [] h = refl
elem-accepted_ids sid ((k, c) ∷ d) h =
    ground (arith, elem-accepted_ids sid d h.1, accepted_ids_absent sid d, h.0, eq_iff k sid)

fold_entry-other :
    (e : LedgerEntry) (d : Dict RecoveryCursor)
    → has_kind e "lifecycle-transition" ≡ false
    → fold_entry e d ≡ ok d
unfolding fold_entry
fold_entry-other e d h = rw h refl

fold_cursor-Distinct :
    (sid : String) (e : LedgerEntry) (d d' : Dict RecoveryCursor)
    → Distinct d
    → fold_cursor sid e d ≡ ok d'
    → Distinct d'
unfolding fold_cursor
fold_cursor-Distinct sid e d d' h eq =
    let (state, _, ends) = >>=-eq-ok (entry_state e.lifecycle_state) _ eq in
    subst Distinct (ok_inj ends) (insert-Distinct sid _ d h)

fold_entry-lifecycle :
    (e : LedgerEntry) (d : Dict RecoveryCursor)
    → has_kind e "lifecycle-transition" ≡ true
    → fold_entry e d ≡ fold_node e.node e d
unfolding fold_entry
fold_entry-lifecycle e d h = rw h refl

fold_entry-Distinct :
    (e : LedgerEntry) (d d' : Dict RecoveryCursor)
    → Distinct d
    → fold_entry e d ≡ ok d'
    → Distinct d'
fold_entry-Distinct e d d' h eq = elim (Bool-cases (has_kind e "lifecycle-transition")) [
  | inl lifecycle ↦ by_node e.node (sym (fold_entry-lifecycle e d lifecycle) ∙ eq)
  | inr other ↦ subst Distinct (ok_inj (sym (fold_entry-other e d other) ∙ eq)) h
]
  where
    by_node : (n : Option String) → fold_node n e d ≡ ok d' → Distinct d'
    by_node none p = subst Distinct (ok_inj p) h
    by_node (some sid) p = fold_cursor-Distinct sid e d d' h p

fold_entries-Distinct :
    (es : List LedgerEntry) (d d' : Dict RecoveryCursor)
    → Distinct d
    → fold_entries es d ≡ ok d'
    → Distinct d'
unfolding fold_entries
fold_entries-Distinct [] d d' h eq = rw (ok_inj eq) at h
fold_entries-Distinct (e ∷ es) d d' h eq =
    let (mid, first, rest) = >>=-eq-ok (fold_entry e d) (fold_entries es) eq in
    fold_entries-Distinct es mid d' (fold_entry-Distinct e d mid h first) rest

set_cursors-Distinct :
    (cs : List RecoveryCursor) (d : Dict RecoveryCursor) → Distinct d → Distinct (set_cursors cs d)
set_cursors-Distinct [] d h = h
set_cursors-Distinct (c ∷ cs) d h =
    set_cursors-Distinct cs (set_cursor c d) (insert-Distinct c.step_id c d h)

module _ (api : LedgerApi) where
  open api use {Ledger, append, read, read-append}

  fold-append :
      (l : Ledger) (e : LedgerEntry) → fold api (append l e) ≡ (fold api l >>= fold_entry e)
  unfolding fold
  fold-append l e = rw (read-append l e) (
      fold_entries-append (read l) (e ∷ []) []
      ∙ ap (λ k. fold_entries (read l) [] >>= k) (fun_ext (λ d. bind-ok (fold_entry e d))))

  fold-record_cursors :
      (cs : List RecoveryCursor) (l : Ledger) (d : Dict RecoveryCursor)
      → fold api l ≡ ok d
      → fold api (record_cursors api l cs) ≡ ok (set_cursors cs d)
  unfolding record_cursor
  fold-record_cursors [] l d h = h
  fold-record_cursors (c ∷ cs) l d h =
      fold-record_cursors cs (append l (as_entry c)) (set_cursor c d)
        (fold-append l (as_entry c) ∙ rw h (fold_entry-as_entry c d))

  fold-Distinct : (l : Ledger) (d : Dict RecoveryCursor) → fold api l ≡ ok d → Distinct d
  unfolding fold
  fold-Distinct l d h = fold_entries-Distinct (read l) [] d tt h

  -- After cursors are recorded on a ledger that folds, the ledger folds again, and the cursor of
  -- each step is the last one recorded for it, or the one it had before when none was recorded.
  pub fold-record_last :
      (l : Ledger) (cs : List RecoveryCursor) (d : Dict RecoveryCursor)
      → fold api l ≡ ok d
      → (d' : Dict RecoveryCursor) × (fold api (record_cursors api l cs) ≡ ok d')
        × ((sid : String) → lookup sid d' ≡ first_of_two (last_for sid cs) (lookup sid d))
  fold-record_last l cs d h =
      (set_cursors cs d, fold-record_cursors cs l d h, λ sid. lookup-set_cursors sid cs d)

  -- On resume the steps that must not run again are those whose last recorded cursor, in the
  -- cursors recorded before the kill or else in the ledger before them, is ACCEPTED.
  pub accepted_steps_after_record :
      (l : Ledger) (cs : List RecoveryCursor) (d : Dict RecoveryCursor)
      → fold api l ≡ ok d
      → (ids : List String) × (accepted_steps api (record_cursors api l cs) ≡ ok ids)
        × ((sid : String)
            → elem sid ids ≡ is_accepted (first_of_two (last_for sid cs) (lookup sid d)))
  unfolding accepted_steps
  accepted_steps_after_record l cs d h = (
    accepted_ids (set_cursors cs d),
    rw (fold-record_cursors cs l d h) refl,
    λ sid.
        elem-accepted_ids sid (set_cursors cs d) (set_cursors-Distinct cs d (fold-Distinct l d h))
        ∙ ap is_accepted (lookup-set_cursors sid cs d),
  )

  -- An entry of another kind, such as a back-update or a sentinel delta, changes no lifecycle.
  pub fold-append_other :
      (l : Ledger) (e : LedgerEntry)
      → has_kind e "lifecycle-transition" ≡ false
      → fold api (append l e) ≡ fold api l
  fold-append_other l e h =
      fold-append l e ∙ rw (fun_ext (λ d. fold_entry-other e d h)) (bind-ok (fold api l))
