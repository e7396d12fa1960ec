-- ===== src/Memory/Advisory.antt =====
-- The hint of epiphany_executor/memory.py and the tier that epiphany_executor/context_builder.py
-- raises by it.
use mathlib.Core.Path.{subst}
use epiphany_executor.Prelude.{
  String, true, false, ◌≡◌, refl, Option, none, some, List, [], ◌∷◌, ◌++◌, ok, >>=-eq-ok, ok_inj,
  lookup, lookup-insert, keys, elem, Distinct, insert-Distinct, if◌then◌else◌, ◌==◌, eq_iff,
  eq_refl, arith, Bool-cases, Option-cases, inl, inr,
}
use epiphany_executor.Value.{Value, obj, Fields, end, field, get, truthy}
use epiphany_executor.Ledger.{LedgerEntry}
use epiphany_executor.Context.Tier.{ThinkingTier, suggested_tier}
use epiphany_executor.Context.{apply_memory_priors}
use epiphany_executor.Memory.{
  Prior, PriorStore, versioned, put, revoke, active, new_prior, failed_nodes, failure_priors,
  shape_priors, distill_priors, hint_of, prior_to_scheduling_hint,
}

-- The prior is there and not revoked.
abbrev pub unrevoked : Option Prior → Option Prior
unrevoked none = none
unrevoked (some p) = if p.revoked then none else some p

lookup-active_absent :
    (k : String) (s : PriorStore) → elem k (keys s) ≡ false → lookup k (active s) ≡ none
unfolding active
lookup-active_absent k [] h = refl
lookup-active_absent k ((j, p) ∷ s) h = ground (arith, lookup-active_absent k s)

lookup-active :
    (k : String) (s : PriorStore) → Distinct s → lookup k (active s) ≡ unrevoked (lookup k s)
unfolding active
lookup-active k [] d = refl
lookup-active k ((j, p) ∷ s) (fresh, d) = elim (Bool-cases (j == k)) [
  | inl same ↦
      let gone = lookup-active_absent k s (rw ((eq_iff j k).0 same) at fresh) in
      ground (arith, same, gone)
  | inr other ↦ ground (arith, other, lookup-active k s d)
]

lookup-revoke : (k : String) (s : PriorStore) → unrevoked (lookup k (revoke k s)) ≡ none
unfolding revoke
lookup-revoke k s = elim (Option-cases (lookup k s)) [
  | inl e ↦ rw (e, e) refl
  | inr (p, e) ↦ rw (e, lookup-insert k k (record p { revoked = true }) s, eq_refl k) refl
]

revoke-Distinct : (k : String) (s : PriorStore) → Distinct s → Distinct (revoke k s)
unfolding revoke
revoke-Distinct k s d = elim (Option-cases (lookup k s)) [
  | inl e ↦ rw e d
  | inr (p, e) ↦ rw e (insert-Distinct k (record p { revoked = true }) s d)
]

put-Distinct : (p : Prior) (s : PriorStore) → Distinct s → Distinct (put p s)
unfolding put
put-Distinct p s d = insert-Distinct p.key (versioned (lookup p.key s) p) s d

-- Once the calibration of a store is revoked, its hint moves no tier and gives no reason.
pub apply_memory_priors-revoke :
    (s : PriorStore) (t : ThinkingTier)
    → Distinct s
    → apply_memory_priors t (prior_to_scheduling_hint (revoke "budget_calibration" s)) ≡ ok (t, [])
unfolding prior_to_scheduling_hint apply_memory_priors suggested_tier
apply_memory_priors-revoke s t d =
    rw
      (
        lookup-active "budget_calibration" (revoke "budget_calibration" s)
            (revoke-Distinct "budget_calibration" s d),
        lookup-revoke "budget_calibration" s,
      )
      refl

-- All the priors are put into the store, in order.
abbrev pub put_all : List Prior → PriorStore → PriorStore
put_all [] s = s
put_all (p ∷ ps) s = put_all ps (put p s)

put_all-append :
    (ps qs : List Prior) (s : PriorStore) → put_all (ps ++ qs) s ≡ put_all qs (put_all ps s)
put_all-append [] qs s = refl
put_all-append (p ∷ ps) qs s = put_all-append ps qs (put p s)

put_all-Distinct : (ps : List Prior) (s : PriorStore) → Distinct s → Distinct (put_all ps s)
put_all-Distinct [] s d = d
put_all-Distinct (p ∷ ps) s d = put_all-Distinct ps (put p s) (put-Distinct p s d)

versioned-keeps :
    (o : Option Prior) (p : Prior)
    → ((versioned o p).value ≡ p.value) × ((versioned o p).revoked ≡ p.revoked)
versioned-keeps none p = (refl, refl)
versioned-keeps (some e) p = (ground arith, ground arith)

hint_of-versioned :
    (o : Option Prior) (cal : Fields) (run_id : String)
    → truthy (get "suggested_tier" cal) ≡ true
    → hint_of (
        unrevoked (
          some
            (versioned o (new_prior "budget_calibration" "budget-calibration" (obj cal) run_id))))
      ≡ field "suggested_tier" (get "suggested_tier" cal) end
hint_of-versioned none cal run_id known = rw known refl
hint_of-versioned (some e) cal run_id known = elim (Bool-cases e.revoked) [
  | inl r ↦ rw (r, known) refl
  | inr r ↦ rw (r, known) refl
]

hint-put :
    (cal : Fields) (run_id : String) (s : PriorStore)
    → Distinct s
    → truthy (get "suggested_tier" cal) ≡ true
    → prior_to_scheduling_hint
        (put (new_prior "budget_calibration" "budget-calibration" (obj cal) run_id) s)
      ≡ field "suggested_tier" (get "suggested_tier" cal) end
unfolding prior_to_scheduling_hint put
hint-put cal run_id s d known =
    let p = new_prior "budget_calibration" "budget-calibration" (obj cal) run_id in
    let o = lookup "budget_calibration" s in
    rw
      (
        lookup-active "budget_calibration" (put p s) (put-Distinct p s d),
        lookup-insert "budget_calibration" "budget_calibration" (versioned o p) s,
      )
      (hint_of-versioned o cal run_id known)

hint-put_last :
    (cal : Fields) (run_id : String) (early middle : List Prior) (s : PriorStore)
    → Distinct s
    → truthy (get "suggested_tier" cal) ≡ true
    → prior_to_scheduling_hint (
        put_all
          (early
            ++ (middle
                ++ new_prior "budget_calibration" "budget-calibration" (obj cal) run_id ∷ []))
          s)
      ≡ field "suggested_tier" (get "suggested_tier" cal) end
hint-put_last cal run_id early middle s d known =
    rw
      (
        put_all-append early
            (middle ++ new_prior "budget_calibration" "budget-calibration" (obj cal) run_id ∷ []) s,
        put_all-append middle
            (new_prior "budget_calibration" "budget-calibration" (obj cal) run_id ∷ [])
            (put_all early s),
      )
      (hint-put cal run_id (put_all middle (put_all early s))
        (put_all-Distinct middle (put_all early s) (put_all-Distinct early s d)) known)

-- The tier that a run's actual budget suggests is the one in the hint of the next run, whatever the
-- store had before.
pub flywheel :
    (entries : List LedgerEntry) (run_id : String) (widths : Value) (actuals : Fields)
    (s : PriorStore) (ps : List Prior)
    → Distinct s
    → truthy (get "suggested_tier" actuals) ≡ true
    → distill_priors entries run_id widths (obj actuals) ≡ ok ps
    → prior_to_scheduling_hint (put_all ps s)
      ≡ field "suggested_tier" (get "suggested_tier" actuals) end
unfolding prior_to_scheduling_hint distill_priors
flywheel entries run_id widths end s ps d known h = absurd (cc known)
flywheel entries run_id widths (field k v fs) s ps d known h =
    let (failed, _, last) = >>=-eq-ok (failed_nodes entries) _ h in
    subst
      (λ (x : List Prior).
        prior_to_scheduling_hint (put_all x s)
        ≡ field "suggested_tier" (get "suggested_tier" (field k v fs)) end)
      (ok_inj last)
      (hint-put_last (field k v fs) run_id (failure_priors failed run_id)
        (shape_priors widths run_id) s d known)
