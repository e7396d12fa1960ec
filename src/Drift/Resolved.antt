-- ===== src/Drift/Resolved.antt =====
-- What `check_drift` of epiphany_executor/drift.py decides for a plan.
use mathlib.Core.Path.{subst}
use epiphany_executor.Prelude.{
  ℕ, String, Bool, true, false, not, ◌&&◌, ◌||◌, ◌≡◌, refl, ◌∙◌, ap, Option, none, some, List, [],
  ◌∷◌, ok, >>=-eq-ok, ok_inj, Dict, lookup, keys, elem, Distinct, insert-Distinct, is_empty,
  or_else, if◌then◌else◌, ◌==◌, eq_iff, eq_refl, arith, Bool-cases, inl, inr,
}
use epiphany_executor.Value.{Value, null, arr, obj, Fields, get, get_or, nil, truthy, iterate}
use epiphany_executor.Coverage.{text_of}
use epiphany_executor.Lifecycle.{LifecycleState, unstarted, same_state}
use epiphany_executor.Drift.{
  Snapshot, no_drift, reimport, halt, DriftVerdict, differs, Drifted, compare_steps, drift_verdict,
  step_hash, add_hash, add_hashes, snapshot_hashes, check_drift,
}

abbrev drift_between : Option String → Option String → Bool
drift_between old none = false
drift_between old (some h) = differs old h

-- The step is in both snapshots, with different hashes.
abbrev pub has_drifted : Dict String → Dict String → String → Bool
has_drifted recorded current sid = drift_between (lookup sid recorded) (lookup sid current)

abbrev pub has_started : Dict LifecycleState → String → Bool
has_started lifecycle sid = not (same_state (or_else (lookup sid lifecycle) unstarted) unstarted)

compare_steps-absent :
    (recorded : Dict String) (lifecycle : Dict LifecycleState) (steps : Dict String) (s : String)
    → elem s (keys steps) ≡ false
    → (elem s (compare_steps recorded lifecycle steps).all_steps ≡ false)
      × (elem s (compare_steps recorded lifecycle steps).started ≡ false)
unfolding compare_steps
compare_steps-absent recorded lifecycle [] s h = (refl, refl)
compare_steps-absent recorded lifecycle ((sid, g) ∷ steps) s h =
    let rest = compare_steps-absent recorded lifecycle steps s in
    (ground (arith, rest), ground (arith, rest))

compare_steps-elem :
    (recorded : Dict String) (lifecycle : Dict LifecycleState) (steps : Dict String) (s : String)
    → Distinct steps
    → (elem s (compare_steps recorded lifecycle steps).all_steps ≡ has_drifted recorded steps s)
      × (elem s (compare_steps recorded lifecycle steps).started
          ≡ (has_drifted recorded steps s && has_started lifecycle s))
unfolding compare_steps
compare_steps-elem recorded lifecycle [] s d = (refl, refl)
compare_steps-elem recorded lifecycle ((sid, g) ∷ steps) s (fresh, d) =
    elim (Bool-cases (sid == s)) [
      | inl same ↦
          let here = (eq_iff sid s).0 same in
          let gone = compare_steps-absent recorded lifecycle steps s (rw here at fresh) in
          rw here (ground (arith, gone, eq_refl s), ground (arith, gone, eq_refl s))
      | inr other ↦
          let rest = compare_steps-elem recorded lifecycle steps s d in
          (ground (arith, rest, other), ground (arith, rest, other))
    ]

-- What a verdict says of the differences that the comparison found.
abbrev Reports : Bool → Drifted → DriftVerdict → Type 0
Reports plan_drifted d v =
    (v.drifted_steps ≡ d.all_steps)
    × (v.halt_steps ≡ d.started)
    × (v.resolution ≡ (
        if not (is_empty d.started) || plan_drifted
        then halt
        else if is_empty d.all_steps
        then no_drift
        else reimport))

drift_verdict-Reports : (p : Bool) (d : Drifted) → Reports p d (drift_verdict p d)
unfolding drift_verdict
drift_verdict-Reports p d = by_lists p d.all_steps d.started
  where
    by_lists :
        (p : Bool) (xs ys : List String)
        → Reports p
            (record { all_steps = xs; started = ys })
            (drift_verdict p (record { all_steps = xs; started = ys }))
    by_lists p xs (y ∷ ys) = (refl, refl, refl)
    by_lists true xs [] = (refl, refl, refl)
    by_lists false [] [] = (refl, refl, refl)
    by_lists false (x ∷ xs) [] = (refl, refl, refl)

no_members : (xs : List String) → ((s : String) → elem s xs ≡ false) → xs ≡ []
no_members [] h = refl
no_members (x ∷ xs) h = absurd (ground (arith, h x, eq_refl x))

has_drifted_self : (steps : Dict String) (s : String) → has_drifted steps steps s ≡ false
has_drifted_self steps s = by_entry (lookup s steps)
  where
    by_entry : (o : Option String) → drift_between o o ≡ false
    by_entry none = refl
    by_entry (some h) = rw (eq_refl h) refl

module _ (dumps : Fields → String) (sha256 : List ℕ → String) where
  add_hash-Distinct :
      (v : Value) (d d' : Dict String)
      → Distinct d
      → add_hash dumps sha256 v d ≡ ok d'
      → Distinct d'
  unfolding add_hash
  add_hash-Distinct (obj s) d d' h e = elim (Bool-cases (truthy (get "step_id" s))) [
    | inl named ↦
        let (sid, _, last) = >>=-eq-ok (text_of (get "step_id" s)) _ (rw named at e) in
        subst Distinct (ok_inj last) (insert-Distinct sid (step_hash dumps sha256 s) d h)
    | inr unnamed ↦ subst Distinct (ok_inj (rw unnamed at e)) h
  ]
  add_hash-Distinct null d d' h e = subst Distinct (ok_inj e) h
  add_hash-Distinct _ d d' h e = subst Distinct (ok_inj e) h

  add_hashes-Distinct :
      (vs : List Value) (d d' : Dict String)
      → Distinct d
      → add_hashes dumps sha256 vs d ≡ ok d'
      → Distinct d'
  unfolding add_hashes
  add_hashes-Distinct [] d d' h e = subst Distinct (ok_inj e) h
  add_hashes-Distinct (v ∷ vs) d d' h e =
      let (mid, first, rest) = >>=-eq-ok (add_hash dumps sha256 v d) _ e in
      add_hashes-Distinct vs mid d' (add_hash-Distinct v d mid h first) rest

  snapshot_hashes-Distinct :
      (plan : Fields) (cur : Snapshot)
      → snapshot_hashes dumps sha256 plan ≡ ok cur
      → Distinct cur.steps
  unfolding snapshot_hashes
  snapshot_hashes-Distinct plan cur e =
      let (bodies, _, e1) = >>=-eq-ok (iterate (get_or "steps" (arr nil) plan)) _ e in
      let (steps, added, last) = >>=-eq-ok (add_hashes dumps sha256 bodies []) _ e1 in
      subst (λ (x : Snapshot). Distinct x.steps) (ok_inj last)
        (add_hashes-Distinct bodies [] steps tt added)

  -- Against a recorded snapshot, the drifted steps of a plan that can be hashed are exactly those
  -- recorded with another hash, the halting ones are those among them that are not UNSTARTED, and
  -- the plan halts if there is one of these or its skeleton's hash is another, is imported again
  -- if only unstarted steps drifted, and has no drift otherwise.
  pub check_drift-resolution :
      (recorded : Snapshot) (plan : Fields) (lifecycle : Dict LifecycleState) (cur : Snapshot)
      → snapshot_hashes dumps sha256 plan ≡ ok cur
      → (v : DriftVerdict) × (check_drift dumps sha256 recorded plan lifecycle ≡ ok v)
        × ((s : String)
            → (elem s v.drifted_steps ≡ has_drifted recorded.steps cur.steps s)
              × (elem s v.halt_steps
                  ≡ (has_drifted recorded.steps cur.steps s && has_started lifecycle s)))
        × (v.resolution ≡ (
            if not (is_empty v.halt_steps) || not (cur.plan == recorded.plan)
            then halt
            else if is_empty v.drifted_steps
            then no_drift
            else reimport))
  unfolding check_drift
  check_drift-resolution recorded plan lifecycle cur e =
      let d = compare_steps recorded.steps lifecycle cur.steps in
      let p = not (cur.plan == recorded.plan) in
      let (same, halts, resolved) = drift_verdict-Reports p d in
      let members = λ (s : String).
        compare_steps-elem recorded.steps lifecycle cur.steps s
          (snapshot_hashes-Distinct plan cur e) in
      (
        drift_verdict p d,
        rw e refl,
        (λ s. (ap (elem s) same ∙ (members s).0, ap (elem s) halts ∙ (members s).1)),
        rw (same, halts) resolved,
      )

  -- A plan that has not changed since its snapshot was taken has no drift, whatever its lifecycle.
  pub check_drift-snapshot_hashes :
      (plan : Fields) (lifecycle : Dict LifecycleState) (cur : Snapshot)
      → snapshot_hashes dumps sha256 plan ≡ ok cur
      → check_drift dumps sha256 cur plan lifecycle
        ≡ ok (record {
          resolution = no_drift;
          drifted_steps = [];
          plan_drifted = false;
          halt_steps = [];
          reason = "";
        })
  unfolding check_drift drift_verdict
  check_drift-snapshot_hashes plan lifecycle cur e =
      let members = λ (s : String).
        compare_steps-elem cur.steps lifecycle cur.steps s (snapshot_hashes-Distinct plan cur e) in
      let quiet = λ (s : String). has_drifted_self cur.steps s in
      let none_drifted =
        no_members (compare_steps cur.steps lifecycle cur.steps).all_steps
          (λ s. (members s).0 ∙ quiet s) in
      let none_started =
        no_members (compare_steps cur.steps lifecycle cur.steps).started
          (λ s. (members s).1 ∙ ap (λ b. b && has_started lifecycle s) (quiet s)) in
      rw (e, none_drifted, none_started, eq_refl cur.plan) refl
