-- ===== src/Scheduler/Cohort/Safe.antt =====
-- The cohort and the residue of `partition_cohort` in epiphany_executor/scheduler.py.
use mathlib.Core.Path.{subst}
use epiphany_executor.Prelude.{
  ◌+◌, ◌<◌, ◌≤◌, String, Bool, true, false, ◌≡◌, ◌≢◌, refl, sym, inl, inr, Option, List, [], ◌∷◌,
  ◌++◌, count, count-append, Bool-cases, arith, length, ok, >>=-eq-ok, ok_inj, ltb, All, All-snoc,
  Pairs, Pairs-snoc, length-append, Dict,
}
use epiphany_executor.Contract.{Contract}
use epiphany_executor.Scheduler.Static.{
  StaticClass, local_mutating, static_effect_class, is_local, provably_disjoint,
}
use epiphany_executor.Scheduler.Cohort.{
  FanoutBudget, contract_at, honest_widths, admit, disjoint_from, place, place_all,
  partition_cohort,
}

module _ (canonical : String → Option String) (contracts : Dict Contract) where
  -- The step has a contract that is statically local and not irreversible.
  abbrev pub IsEligible : String → Type 0
  IsEligible s =
      (c : Contract) × (contract_at contracts s ≡ ok c) × (static_effect_class c ≡ local_mutating)

  -- Both steps have contracts whose write sets are declared and disjoint.
  abbrev pub Apart : String → String → Type 0
  Apart s t =
      (c d : Contract) × (contract_at contracts s ≡ ok c)
      × (contract_at contracts t ≡ ok d)
      × (provably_disjoint canonical d c ≡ true)

  pub record IsCohort (budget : FanoutBudget) (parallel : List String) : Type 0 where
    pub eligible : All IsEligible parallel
    pub apart : Pairs Apart parallel
    pub capped : length parallel ≤ budget.max_concurrent_effectors

  disjoint_from-Apart :
      (sid : String) (c : Contract) (ps : List String)
      → contract_at contracts sid ≡ ok c
      → disjoint_from canonical contracts c ps ≡ ok true
      → All (λ p. Apart p sid) ps
  unfolding disjoint_from
  disjoint_from-Apart sid c [] e h = tt
  disjoint_from-Apart sid c (p ∷ ps) e h =
      let (d, found, rest) = >>=-eq-ok (contract_at contracts p) _ h in
      elim (Bool-cases (provably_disjoint canonical c d)) [
        | inl apart ↦ ((d, c, found, e, apart), disjoint_from-Apart sid c ps e (rw apart at rest))
        | inr meets ↦ cc (rw meets at rest)
      ]

  -- Where one round puts its step.
  data Placed (budget : FanoutBudget) (sid : String) (par ser par' ser' : List String)
      : Type 0 where
    joins :
        (c : Contract)
        → contract_at contracts sid ≡ ok c
        → static_effect_class c ≡ local_mutating
        → disjoint_from canonical contracts c par ≡ ok true
        → length par < budget.max_concurrent_effectors
        → par' ≡ par ++ sid ∷ []
        → ser' ≡ ser
        → Placed budget sid par ser par' ser'
    drops : par' ≡ par → ser' ≡ ser ++ sid ∷ [] → Placed budget sid par ser par' ser'

  local_of : (k : StaticClass) → is_local k ≡ true → k ≡ local_mutating
  local_of local_mutating h = refl
  local_of _ h = cc

  place-Placed :
      (budget : FanoutBudget) (sid : String) (par ser par' ser' : List String)
      → place canonical contracts budget sid par ser ≡ ok (par', ser')
      → Placed budget sid par ser par' ser'
  unfolding place
  place-Placed budget sid par ser par' ser' h =
      let (c, found, rest) = >>=-eq-ok (contract_at contracts sid) _ h in
      elim (Bool-cases (is_local (static_effect_class c))) [
        | inl local ↦
            let (free, e, last) =
              >>=-eq-ok (disjoint_from canonical contracts c par) _ (rw local at rest) in
            by_test c found local free e last
        | inr other ↦ drops (ground arith) (ground arith)
      ]
    where
      by_test :
          (c : Contract)
          → contract_at contracts sid ≡ ok c
          → is_local (static_effect_class c) ≡ true
          → (free : Bool) → disjoint_from canonical contracts c par ≡ ok free
          → admit budget sid par ser free ≡ ok (par', ser')
          → Placed budget sid par ser par' ser'
      by_test c found local false e last = drops (ground arith) (ground arith)
      by_test c found local true e last =
          elim (Bool-cases (ltb (length par) budget.max_concurrent_effectors)) [
            | inl room ↦
                joins c found (local_of (static_effect_class c) local) e (ground arith)
                  (ground arith) (ground arith)
            | inr full ↦ drops (ground arith) (ground arith)
          ]

  Placed-IsCohort :
      (budget : FanoutBudget) (sid : String) (par ser par' ser' : List String)
      → Placed budget sid par ser par' ser'
      → IsCohort budget par
      → IsCohort budget par'
  Placed-IsCohort budget sid par ser par' ser' (joins c found local free room e f) h =
      rw e (record {
        eligible = All-snoc IsEligible par sid h.eligible (c, found, local);
        apart = Pairs-snoc Apart par sid h.apart (disjoint_from-Apart sid c par found free);
        capped = omega (arith, length-append par (sid ∷ []));
      })
  Placed-IsCohort budget sid par ser par' ser' (drops e f) h = rw e h

  Placed-count :
      (budget : FanoutBudget) (s sid : String) (par ser par' ser' : List String)
      → Placed budget sid par ser par' ser'
      → count s par' + count s ser' ≡ count s par + count s ser + count s (sid ∷ [])
  Placed-count budget s sid par ser par' ser' (joins c found local free room e f) =
      rw (e, f) (omega (arith, count-append s par (sid ∷ [])))
  Placed-count budget s sid par ser par' ser' (drops e f) =
      rw (e, f) (omega (arith, count-append s ser (sid ∷ [])))

  -- What is known of the two lists after the loop.
  record IsSplit (budget : FanoutBudget) (sids par ser : List String)
      (r : List String × List String) : Type 0 where
    cohort : IsCohort budget r.0
    counted : (s : String) → count s r.0 + count s r.1 ≡ count s par + count s ser + count s sids

  place_all-IsSplit :
      (budget : FanoutBudget) (sids par ser : List String) (r : List String × List String)
      → place_all canonical contracts budget sids par ser ≡ ok r
      → IsCohort budget par
      → IsSplit budget sids par ser r
  unfolding place_all
  place_all-IsSplit budget [] par ser r h c =
      rw (sym (ok_inj h)) (record { cohort = c; counted = λ s. omega arith })
  place_all-IsSplit budget (sid ∷ sids) par ser r h c =
      let ((par', ser'), e, rest) = >>=-eq-ok (place canonical contracts budget sid par ser) _ h in
      let placed = place-Placed budget sid par ser par' ser' e in
      let split =
        place_all-IsSplit budget sids par' ser' r rest
          (Placed-IsCohort budget sid par ser par' ser' placed c) in
      record {
        cohort = split.cohort;
        counted =
            λ s. omega (arith, split.counted s, Placed-count budget s sid par ser par' ser' placed);
      }

  -- What the two lists that the partition returns satisfy.
  abbrev IsPartition : FanoutBudget → List String → List String × List String → Type 0
  IsPartition budget antichain r =
      ((s : String) → count s r.0 + count s r.1 ≡ count s antichain)
      × IsCohort budget r.0
      × (length r.0 ≢ 1)

  honest_widths-IsPartition :
      (budget : FanoutBudget) (antichain p ser : List String)
      → IsSplit budget antichain [] [] (p, ser)
      → IsPartition budget antichain (honest_widths p ser)
  honest_widths-IsPartition budget antichain [] ser split =
      (λ s. omega (arith, split.counted s), split.cohort, λ e. omega arith)
  honest_widths-IsPartition budget antichain (sid ∷ []) ser split = (
    λ s. omega (arith, split.counted s),
    record { eligible = tt; apart = tt; capped = omega arith },
    λ e. omega arith,
  )
  honest_widths-IsPartition budget antichain (sid ∷ t ∷ p) ser split =
      (λ s. omega (arith, split.counted s), split.cohort, λ e. omega arith)

  -- When the partition of an antichain returns a cohort and a residue: every step of the
  -- antichain is in one of them, as often as it was; each member of the cohort has declared
  -- outputs and is statically local-mutating; the write sets of each two members are declared and
  -- disjoint; the cohort is no larger than the budget's cap; and its width is not 1.
  pub partition_cohort_safe :
      (budget : FanoutBudget) (antichain par ser : List String)
      → partition_cohort canonical contracts antichain budget ≡ ok (par, ser)
      → ((s : String) → count s par + count s ser ≡ count s antichain)
        × IsCohort budget par
        × (length par ≢ 1)
  unfolding partition_cohort
  partition_cohort_safe budget antichain par ser h =
      let ((p, s), e, last) =
        >>=-eq-ok (place_all canonical contracts budget antichain [] []) _ h in
      let split =
        place_all-IsSplit budget antichain [] [] (p, s) e
          (record { eligible = tt; apart = tt; capped = omega arith }) in
      subst (IsPartition budget antichain) (ok_inj last)
        (honest_widths-IsPartition budget antichain p s split)
