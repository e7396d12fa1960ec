-- ===== src/Scheduler/Cohort/Total.antt =====
-- When `partition_cohort` of epiphany_executor/scheduler.py returns.
use epiphany_executor.Prelude.{
  String, Bool, true, false, ◌≡◌, refl, ◌∙◌, ap, inl, inr, Option, List, [], ◌∷◌, ◌++◌, elem, keys,
  Bool-cases, Option-cases, length, ok, ltb, All, All-snoc, Dict, lookup, elem-keys, is_some,
}
use epiphany_executor.Contract.{Contract}
use epiphany_executor.Scheduler.Static.{static_effect_class, is_local, provably_disjoint}
use epiphany_executor.Scheduler.Cohort.{
  FanoutBudget, contract_at, honest_widths, admit, disjoint_from, place, place_all,
  partition_cohort,
}

module _ (canonical : String → Option String) (contracts : Dict Contract) where
  -- Totality: the partition raises only on a step that has no contract.
  abbrev pub IsKnown : String → Type 0
  IsKnown s = (c : Contract) × (contract_at contracts s ≡ ok c)

  disjoint_from_total :
      (c : Contract) (ps : List String)
      → All IsKnown ps
      → (b : Bool) × (disjoint_from canonical contracts c ps ≡ ok b)
  unfolding disjoint_from
  disjoint_from_total c [] k = (true, refl)
  disjoint_from_total c (p ∷ ps) ((d, found), k) =
      let (b, e) = disjoint_from_total c ps k in
      elim (Bool-cases (provably_disjoint canonical c d)) [
        | inl apart ↦ (b, rw (found, apart) e)
        | inr meets ↦ (false, rw (found, meets) refl)
      ]

  place_total :
      (budget : FanoutBudget) (sid : String) (par ser : List String)
      → IsKnown sid
      → All IsKnown par
      → (r : List String × List String) × (place canonical contracts budget sid par ser ≡ ok r)
        × All IsKnown r.0
  unfolding place
  place_total budget sid par ser (c, found) k =
      let (free, e) = disjoint_from_total c par k in
      elim (Bool-cases (is_local (static_effect_class c))) [
        | inl local ↦ by_test free (rw (found, local, e) refl)
        | inr other ↦ ((par, ser ++ sid ∷ []), rw (found, other) refl, k)
      ]
    where
      by_test :
          (free : Bool)
          → place canonical contracts budget sid par ser ≡ admit budget sid par ser free
          → (r : List String × List String) × (place canonical contracts budget sid par ser ≡ ok r)
            × All IsKnown r.0
      by_test false eq = ((par, ser ++ sid ∷ []), eq, k)
      by_test true eq = elim (Bool-cases (ltb (length par) budget.max_concurrent_effectors)) [
        | inl room ↦
            ((par ++ sid ∷ [], ser), eq ∙ rw room refl, All-snoc IsKnown par sid k (c, found))
        | inr full ↦ ((par, ser ++ sid ∷ []), eq ∙ rw full refl, k)
      ]

  place_all_total :
      (budget : FanoutBudget) (sids par ser : List String)
      → All IsKnown sids
      → All IsKnown par
      → (r : List String × List String) × (place_all canonical contracts budget sids par ser ≡ ok r)
  unfolding place_all
  place_all_total budget [] par ser ks k = ((par, ser), refl)
  place_all_total budget (sid ∷ sids) par ser (known, ks) k =
      let ((par', ser'), e, k') = place_total budget sid par ser known k in
      let (r, f) = place_all_total budget sids par' ser' ks k' in (r, rw e f)

  pub IsKnown-key : (s : String) → elem s (keys contracts) ≡ true → IsKnown s
  unfolding contract_at
  IsKnown-key s m = elim (Option-cases (lookup s contracts)) [
    | inl absent ↦ cc (elem-keys s contracts, ap is_some absent, m)
    | inr (c, found) ↦ (c, rw found refl)
  ]

  -- The partition of an antichain whose steps all have contracts raises no error.
  pub partition_cohort_total :
      (budget : FanoutBudget) (antichain : List String)
      → All IsKnown antichain
      → (r : List String × List String) × (partition_cohort canonical contracts antichain budget
          ≡ ok r)
  unfolding partition_cohort
  partition_cohort_total budget antichain ks =
      let ((p, s), e) = place_all_total budget antichain [] [] ks tt in
      (honest_widths p s, rw e refl)
