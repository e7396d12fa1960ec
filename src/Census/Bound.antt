-- ===== src/Census/Bound.antt =====
-- The keys of the plans beside the consumer maps of epiphany_executor/census.py.
use mathlib.Core.Path.{subst}
use epiphany_executor.Prelude.{
  String, Bool, true, false, ◌&&◌, ◌||◌, ◌≡◌, refl, sym, ◌∙◌, ap, List, [], ◌∷◌, ◌++◌, Result, ok,
  err, >>=-eq-ok, ok_inj, Dict, insert, lookup, keys, elem, elem-append, elem-dedup, elem-sorted,
  elem-keys, elem-keys-insert, all, all-elem, all-members, or_else, sorted, arith, inl, inr,
  Option-cases,
}
use epiphany_executor.Value.{Value, arr, nil, Fields, get_or, iterate}
use epiphany_executor.Census.{
  Scope, plan_scope, step_scope, CensusFinding, blocking, passed, stale_exempt, Seen, see_keys,
  field_names, plan_seen, keys_of_steps, keys_in_plan, step_seen, bind_keys, stale_keys,
  findings_of, census,
}
use epiphany_executor.Census.Consumers.{plan_level_consumers, step_level_consumers}

-- Every used key is declared, and every declared key is used or exempt.
abbrev pub is_bound : Dict String → List String → Bool
is_bound consumers used =
    all (λ k. elem k (keys consumers)) used
    && all (λ k. elem k used || stale_exempt (or_else (lookup k consumers) "")) (keys consumers)

-- The keys of all the plans.
abbrev pub used_in_plans : Dict Fields → List String
used_in_plans [] = []
used_in_plans ((name, plan) ∷ plans) = field_names plan ++ used_in_plans plans

abbrev values_or_none : Result (List Value) → List Value
values_or_none (err e) = []
values_or_none (ok vs) = vs

-- The keys of all the steps of all the plans.
abbrev pub used_in_steps : Dict Fields → List String
used_in_steps [] = []
used_in_steps ((name, plan) ∷ plans) =
    keys_of_steps (values_or_none (iterate (get_or "steps" (arr nil) plan))) ++ used_in_steps plans

keys-see_keys :
    (k name : String) (ks : List String) (seen : Seen)
    → elem k (keys (see_keys name ks seen)) ≡ (elem k ks || elem k (keys seen))
unfolding see_keys
keys-see_keys k name [] seen = refl
keys-see_keys k name (j ∷ ks) seen =
    let now = or_else (lookup j seen) [] ++ name ∷ [] in
    keys-see_keys k name ks (insert j now seen) ∙ ground (arith, elem-keys-insert j k now seen)

keys-plan_seen :
    (k : String) (plans : Dict Fields) (seen : Seen)
    → elem k (keys (plan_seen plans seen)) ≡ (elem k (used_in_plans plans) || elem k (keys seen))
unfolding plan_seen
keys-plan_seen k [] seen = refl
keys-plan_seen k ((name, plan) ∷ plans) seen =
    keys-plan_seen k plans (see_keys name (field_names plan) seen)
    ∙ ground (
      arith,
      keys-see_keys k name (field_names plan) seen,
      elem-append k (field_names plan) (used_in_plans plans),
    )

keys-step_seen :
    (k : String) (plans : Dict Fields) (seen seen' : Seen)
    → step_seen plans seen ≡ ok seen'
    → elem k (keys seen') ≡ (elem k (used_in_steps plans) || elem k (keys seen))
unfolding step_seen keys_in_plan
keys-step_seen k [] seen seen' h = ap (λ s. elem k (keys s)) (sym (ok_inj h))
keys-step_seen k ((name, plan) ∷ plans) seen seen' h =
    let (ks, found, rest) = >>=-eq-ok (keys_in_plan plan) _ h in
    let (vs, listed, last) = >>=-eq-ok (iterate (get_or "steps" (arr nil) plan)) _ found in
    let same = ap (elem k) (sym (ok_inj last)) ∙ elem-dedup k (keys_of_steps vs) in
    keys-step_seen k plans (see_keys name ks seen) seen' rest
    ∙ rw listed (
        ground (
          arith,
          same,
          keys-see_keys k name ks seen,
          elem-append k (keys_of_steps vs) (used_in_steps plans),
        ))

all_of_same :
    (p : String → Bool) (xs ys : List String)
    → ((s : String) → elem s xs ≡ elem s ys)
    → all p xs ≡ true
    → all p ys ≡ true
all_of_same p xs ys same h = all-members p ys (λ s m. all-elem p s xs h (same s ∙ m))

all-same :
    (p : String → Bool) (xs ys : List String)
    → ((s : String) → elem s xs ≡ elem s ys)
    → all p xs ≡ all p ys
all-same p xs ys same =
    ground (arith, all_of_same p xs ys same, all_of_same p ys xs (λ s. sym (same s)))

all_ext :
    (p q : String → Bool) (xs : List String) → ((s : String) → p s ≡ q s) → all p xs ≡ all q xs
all_ext p q [] h = refl
all_ext p q (x ∷ xs) h = ground (arith, h x, all_ext p q xs h)

passed-append : (xs ys : List CensusFinding) → passed (xs ++ ys) ≡ (passed xs && passed ys)
unfolding passed blocking
passed-append [] ys = refl
passed-append (x ∷ xs) ys = ground (arith, passed-append xs ys)

passed-bind_keys :
    (scope : Scope) (consumers : Dict String) (seen : Seen) (ks : List String)
    → passed (bind_keys scope consumers seen ks) ≡ all (λ k. elem k (keys consumers)) ks
unfolding passed blocking bind_keys
passed-bind_keys scope consumers seen [] = refl
passed-bind_keys scope consumers seen (k ∷ ks) = elim (Option-cases (lookup k consumers)) [
  | inl e ↦ rw e (ground (arith, elem-keys k consumers, e))
  | inr (c, e) ↦
      rw e (ground (arith, elem-keys k consumers, e, passed-bind_keys scope consumers seen ks))
]

passed-stale_keys :
    (scope : Scope) (consumers : Dict String) (seen : Seen) (ks : List String)
    → passed (stale_keys scope consumers seen ks)
      ≡ all (λ k. elem k (keys seen) || stale_exempt (or_else (lookup k consumers) "")) ks
unfolding passed blocking stale_keys
passed-stale_keys scope consumers seen [] = refl
passed-stale_keys scope consumers seen (k ∷ ks) =
    ground (arith, passed-stale_keys scope consumers seen ks)

and_cong : {a b c d : Bool} → a ≡ b → c ≡ d → (a && c) ≡ (b && d)
and_cong {a} {b} {c} {d} e f = rw (e, f) refl

or_false : (b : Bool) → (b || false) ≡ b
or_false true = refl
or_false false = refl

passed-findings_of :
    (scope : Scope) (consumers : Dict String) (seen : Seen) (used : List String)
    → ((s : String) → elem s (keys seen) ≡ elem s used)
    → passed (findings_of scope consumers seen) ≡ is_bound consumers used
unfolding findings_of
passed-findings_of scope consumers seen used same =
    let declared = λ (k : String). elem k (keys consumers) in
    let was_seen =
      λ (k : String). elem k (keys seen) || stale_exempt (or_else (lookup k consumers) "") in
    let was_used = λ (k : String). elem k used || stale_exempt (or_else (lookup k consumers) "") in
    let bind =
      passed-bind_keys scope consumers seen (sorted (keys seen))
      ∙ all-same declared (sorted (keys seen)) used (λ s. elem-sorted s (keys seen) ∙ same s) in
    let stale =
      passed-stale_keys scope consumers seen (sorted (keys consumers))
      ∙ (all-same was_seen (sorted (keys consumers)) (keys consumers)
            (λ s. elem-sorted s (keys consumers))
          ∙ all_ext was_seen was_used (keys consumers)
              (λ s. ap (λ b. b || stale_exempt (or_else (lookup s consumers) "")) (same s))) in
    passed-append (bind_keys scope consumers seen (sorted (keys seen)))
      (stale_keys scope consumers seen (sorted (keys consumers)))
    ∙ and_cong bind stale

-- The census passes exactly if every key of the plans and every key of their steps is declared in
-- the consumer map of its scope, and every key declared there is used in the plans or exempt.
pub census-passed :
    (plans : Dict Fields) (findings : List CensusFinding)
    → census plans ≡ ok findings
    → passed findings ≡ (
        is_bound plan_level_consumers (used_in_plans plans)
        && is_bound step_level_consumers (used_in_steps plans))
unfolding census
census-passed plans findings h =
    let (steps, seen, last) = >>=-eq-ok (step_seen plans []) _ h in
    subst
      (λ (x : List CensusFinding). passed x ≡ (
        is_bound plan_level_consumers (used_in_plans plans)
        && is_bound step_level_consumers (used_in_steps plans)))
      (ok_inj last)
      (passed-append (findings_of plan_scope plan_level_consumers (plan_seen plans []))
          (findings_of step_scope step_level_consumers steps)
        ∙ and_cong
            (passed-findings_of plan_scope plan_level_consumers (plan_seen plans [])
              (used_in_plans plans)
              (λ s. keys-plan_seen s plans [] ∙ or_false (elem s (used_in_plans plans))))
            (passed-findings_of step_scope step_level_consumers steps (used_in_steps plans) (λ s.
              keys-step_seen s plans [] steps seen ∙ or_false (elem s (used_in_steps plans)))))
