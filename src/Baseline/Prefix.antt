-- ===== src/Baseline/Prefix.antt =====
-- What `run_baseline` of epiphany_executor/baseline.py accepts.
use mathlib.Core.Path.{subst}
use epiphany_executor.Prelude.{
  ℕ, ◌+◌, String, Bool, true, false, ◌&&◌, ◌≡◌, refl, ◌∙◌, ap, Option, none, some, List, [], ◌∷◌,
  ◌++◌, Result, ok, Dict, insert, lookup, lookup-insert, keys, elem, all, all-members, &&-eq-true,
  is_empty, length, length-append, eqb, if◌then◌else◌, ◌==◌, arith, Bool-cases, Option-cases, inl,
  inr,
}
use epiphany_executor.Value.{Value, arr, nil, Fields, get_or, iterate}
use epiphany_executor.Baseline.{
  BaselineResult, is_none, end_to_end_success, by_id, run_order, steps_with_id, run_baseline,
}

-- The last step with the id.
abbrev pub last_with : String → Dict Fields → Option Fields
last_with sid [] = none
last_with sid ((k, s) ∷ steps) = elim (last_with sid steps) [
  | some t ↦ some t
  | none ↦ if k == sid then some s else none
]

abbrev or_first : Option Fields → Option Fields → Option Fields
or_first none o = o
or_first (some s) o = some s

lookup-by_id :
    (sid : String) (steps d : Dict Fields)
    → lookup sid (by_id steps d) ≡ or_first (last_with sid steps) (lookup sid d)
lookup-by_id sid [] d = refl
lookup-by_id sid ((k, s) ∷ steps) d =
    lookup-by_id sid steps (insert k s d)
    ∙ rw (lookup-insert k sid s d) (by_rest (last_with sid steps) (k == sid))
  where
    by_rest :
        (o : Option Fields) (b : Bool)
        → or_first o (if b then some s else lookup sid d)
          ≡ or_first (elim o [ some t ↦ some t | none ↦ if b then some s else none ]) (lookup sid d)
    by_rest (some t) b = refl
    by_rest none true = refl
    by_rest none false = refl

lookup-last_with :
    (sid : String) (steps : Dict Fields) → lookup sid (by_id steps []) ≡ last_with sid steps
lookup-last_with sid steps = lookup-by_id sid steps [] ∙ nothing_else (last_with sid steps)
  where
    nothing_else : (o : Option Fields) → or_first o none ≡ o
    nothing_else none = refl
    nothing_else (some s) = refl

last_with-found :
    (sid : String) (steps : Dict Fields)
    → elem sid (keys steps) ≡ true
    → (s : Fields) × (last_with sid steps ≡ some s)
last_with-found sid [] m = absurd (cc m)
last_with-found sid ((k, s) ∷ steps) m = elim (Option-cases (last_with sid steps)) [
  | inr (t, e) ↦ (t, rw e refl)
  | inl e ↦ elim (Bool-cases (k == sid)) [
    | inl same ↦ (s, rw (e, same) refl)
    | inr other ↦
        let (t, found) = last_with-found sid steps (ground arith) in absurd (cc (e, found))
  ]
]

module _ (apply_fn : ℕ → Fields → Result Fields) (check_fn : ℕ → Fields → Fields → Result Bool)
    (steps : Dict Fields) where
  -- The last step with the id, applied and checked behind `n` others, is answered `b`.
  abbrev pub Answered : Bool → ℕ → String → Type 0
  Answered b n sid =
      (s : Fields) × (artifacts : Fields) × (last_with sid steps ≡ some s)
      × (apply_fn n s ≡ ok artifacts)
      × (check_fn n s artifacts ≡ ok b)

  abbrev pub AllPass : ℕ → List String → Type 0
  AllPass n [] = Unit
  AllPass n (sid ∷ sids) = Answered true n sid × AllPass (n + 1) sids

  -- What stopped the loop: nothing, or the first of the remaining steps.
  abbrev pub StoppedBy : ℕ → List String → Option String → Type 0
  StoppedBy n [] failed_at = failed_at ≡ none
  StoppedBy n (sid ∷ rest) failed_at = (failed_at ≡ some sid) × Answered false n sid

  pub record Prefix (n : ℕ) (order : List String) (r : BaselineResult) : Type 0 where
    pub rest : List String
    pub split : order ≡ r.accepted ++ rest
    pub passed : AllPass n r.accepted
    pub stopped : StoppedBy (n + length r.accepted) rest r.failed_at

  module _ (applies : (n : ℕ) (s : Fields) → (a : Fields) × (apply_fn n s ≡ ok a))
      (checks : (n : ℕ) (s a : Fields) → (b : Bool) × (check_fn n s a ≡ ok b)) where
    -- What the loop returns.
    abbrev Runs : ℕ → List String → ℕ → Type 0
    Runs n order total =
        (r : BaselineResult) × (run_order apply_fn check_fn n (by_id steps []) order total ≡ ok r)
        × Prefix n order r
        × (r.total ≡ total)

    run_order-Prefix :
        (n : ℕ) (order : List String) (total : ℕ)
        → all (λ s. elem s (keys steps)) order ≡ true
        → Runs n order total
    unfolding run_order
    run_order-Prefix n [] total h =
        (_, refl, record { rest = []; split = refl; passed = tt; stopped = refl }, refl)
    run_order-Prefix n (sid ∷ order) total h =
        let (s, last) = last_with-found sid steps (&&-eq-true (elem sid (keys steps)) _ h).0 in
        let (a, applied) = applies n s in
        let (b, checked) = checks n s a in
        let (r, ran, p, t) =
          run_order-Prefix (n + 1) order total (&&-eq-true (elem sid (keys steps)) _ h).1 in
        elim (Bool-cases b) [
          | inl passes ↦ (
            record r { accepted = sid ∷ r.accepted },
            rw (lookup-last_with sid steps, last) (rw applied (rw (checked, passes) (rw ran refl))),
            record {
              rest = p.rest;
              split = ap (λ (xs : List String). sid ∷ xs) p.split;
              passed = ((s, a, last, applied, checked ∙ ap ok passes), p.passed);
              stopped = subst (λ m. StoppedBy m p.rest r.failed_at) (omega arith) p.stopped;
            },
            t,
          )
          | inr fails ↦
              let here : n ≡ n + 0 = omega arith in
              (
                record { accepted = []; failed_at = some sid; total = total },
                rw (lookup-last_with sid steps, last) (rw applied (rw (checked, fails) refl)),
                record {
                  rest = sid ∷ order;
                  split = refl;
                  passed = tt;
                  stopped =
                      subst (λ m. StoppedBy m (sid ∷ order) (some sid)) here
                        (refl, (s, a, last, applied, checked ∙ ap ok fails));
                },
                refl,
              )
        ]

success-Prefix :
    (accepted rest : List String) (failed_at : Option String)
    → (is_none failed_at && eqb (length accepted) (length (accepted ++ rest)))
      ≡ (is_none failed_at && is_empty rest)
success-Prefix accepted [] failed_at = ground (arith, length-append accepted [])
success-Prefix accepted (x ∷ rest) failed_at = ground (arith, length-append accepted (x ∷ rest))

StoppedBy-is_empty :
    (apply_fn : ℕ → Fields → Result Fields) (check_fn : ℕ → Fields → Fields → Result Bool)
    (steps : Dict Fields) (n : ℕ) (rest : List String) (failed_at : Option String)
    → StoppedBy apply_fn check_fn steps n rest failed_at
    → is_none failed_at ≡ is_empty rest
StoppedBy-is_empty apply_fn check_fn steps n [] failed_at h = ap is_none h
StoppedBy-is_empty apply_fn check_fn steps n (x ∷ rest) failed_at h = ap is_none h.0

-- Where the ids of a plan can be read and neither the applier nor the check raises, whatever they
-- remember of earlier calls, the baseline returns: it accepts the ids of a prefix of the document
-- order, for each of which the last step with that id was applied and passed its check in its turn,
-- and stops at the first id behind the prefix, whose last step was applied and failed its check; and
-- it succeeds end to end exactly if nothing stopped it.
pub run_baseline-Prefix :
    (apply_fn : ℕ → Fields → Result Fields) (check_fn : ℕ → Fields → Fields → Result Bool)
    (plan : Fields) (vs : List Value) (steps : Dict Fields)
    → ((n : ℕ) (s : Fields) → (a : Fields) × (apply_fn n s ≡ ok a))
    → ((n : ℕ) (s a : Fields) → (b : Bool) × (check_fn n s a ≡ ok b))
    → iterate (get_or "steps" (arr nil) plan) ≡ ok vs
    → steps_with_id vs ≡ ok steps
    → (r : BaselineResult) × (run_baseline apply_fn check_fn plan ≡ ok r)
      × (p : Prefix apply_fn check_fn steps 0 (keys steps) r) × (end_to_end_success r
          ≡ is_empty p.rest)
unfolding run_baseline end_to_end_success
run_baseline-Prefix apply_fn check_fn plan vs steps applies checks read named =
    let (r, ran, p, total) =
      run_order-Prefix apply_fn check_fn steps applies checks 0 (keys steps) (length (keys steps))
        (all-members (λ s. elem s (keys steps)) (keys steps) (λ s m. m)) in
    (
      r,
      rw (read, named) ran,
      p,
      ap (λ n. is_none r.failed_at && eqb (length r.accepted) n) (total ∙ ap length p.split)
          ∙ success-Prefix r.accepted p.rest r.failed_at
          ∙ ap (λ b. b && is_empty p.rest)
              (StoppedBy-is_empty apply_fn check_fn steps _ p.rest r.failed_at p.stopped)
          ∙ same (is_empty p.rest),
    )
  where
    same : (b : Bool) → (b && b) ≡ b
    same true = refl
    same false = refl
