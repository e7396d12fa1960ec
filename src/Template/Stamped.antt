-- ===== src/Template/Stamped.antt =====
-- The contracts that `stamp_node_contract` of epiphany_executor/contract_template.py returns.
use mathlib.Core.Path.{subst}
use epiphany_executor.Prelude.{
  String, Bool, true, false, ◌≡◌, refl, sym, ◌∙◌, ap, List, [], ◌∷◌, ok, >>=-eq-ok, ok_inj,
  if◌then◌else◌, elem, keep, is_empty, all, arith, ◌==◌, eq_iff, Bool-cases, inl, inr, guard,
  value_error,
}
use epiphany_executor.Value.{Value, null, obj, Fields, end, field, get, truthy}
use epiphany_executor.Contract.{Contract, Footprint, footprint_of}
use epiphany_executor.Template.{
  as_list, known_step_keys, output_names, static_footprint, extra_of, contract_of, stamp_fields,
  stamp_node_contract, assert_node_contract, traces_of, normalize_deps,
}

keep-all : (vs : List Value) → all truthy (keep truthy vs) ≡ true
keep-all [] = refl
keep-all (v ∷ vs) = ground (arith, keep-all vs)

get_kept :
    (b : Bool) (k j : String) (v : Value) (rest fs : Fields)
    → (j == k) ≡ true
    → get k rest ≡ (if b then null else get k fs)
    → get k (if b then rest else field j v rest) ≡ (if b then null else get k (field j v fs))
get_kept b k j v rest fs h e = ground arith

get_other :
    (b b' : Bool) (k j : String) (v : Value) (rest fs : Fields)
    → (j == k) ≡ false
    → get k rest ≡ (if b' then null else get k fs)
    → get k (if b then rest else field j v rest) ≡ (if b' then null else get k (field j v fs))
get_other b b' k j v rest fs h e = ground arith

get-extra_of :
    (k : String) (fs : Fields)
    → get k (extra_of fs) ≡ (if elem k known_step_keys then null else get k fs)
unfolding extra_of
get-extra_of k end = both (elem k known_step_keys)
  where
    both : (b : Bool) → null ≡ (if b then null else null)
    both true = refl
    both false = refl
get-extra_of k (field j v fs) = elim (Bool-cases (j == k)) [
  | inl here ↦
      let e = ap (λ s. elem s known_step_keys) ((eq_iff j k).0 here) in
      ap (λ b. get k (if b then extra_of fs else field j v (extra_of fs))) e
      ∙ get_kept (elem k known_step_keys) k j v (extra_of fs) fs here (get-extra_of k fs)
  | inr other ↦
      get_other (elem j known_step_keys) (elem k known_step_keys) k j v (extra_of fs) fs other
        (get-extra_of k fs)
]

-- A stamped contract, taken apart.
stamp_fields-ok :
    (step : Fields) (c : Contract)
    → stamp_fields step ≡ ok c
    → (truthy (get "step_id" step) ≡ true)
      × (fp : Footprint) × (static_footprint (as_list (get "outputs" step)) ≡ ok fp)
      × (c ≡ contract_of step fp)
unfolding stamp_fields
stamp_fields-ok step c h =
    let (u, named, h1) = >>=-eq-ok (guard (truthy (get "step_id" step)) value_error) _ h in
    let (fp, e, h2) = >>=-eq-ok (static_footprint (as_list (get "outputs" step))) _ h1 in
    (ground arith, fp, e, sym (ok_inj h2))

static_footprint-ok :
    (outs : List Value) (fp : Footprint)
    → static_footprint outs ≡ ok fp
    → (fp.conflicts_with_all ≡ is_empty fp.declared_outputs)
      × (all truthy fp.declared_outputs ≡ true)
unfolding static_footprint
static_footprint-ok outs fp h =
    let (names, e, h1) = >>=-eq-ok (output_names outs) _ h in
    (
      ap (λ (f : Footprint). f.conflicts_with_all) (sym (ok_inj h1))
          ∙ ap (λ (f : Footprint). is_empty f.declared_outputs) (ok_inj h1),
      ap (λ (f : Footprint). all truthy f.declared_outputs) (sym (ok_inj h1)) ∙ keep-all names,
    )

-- What is asked of a compiled contract.
pub record Stamped (step : Fields) (c : Contract) : Type 0 where
  pub asserted : assert_node_contract c ≡ ok tt
  pub named : truthy c.step_id ≡ true
  pub outputs_named : all truthy (footprint_of c).declared_outputs ≡ true
  pub unknown_serialised :
      (footprint_of c).conflicts_with_all ≡ is_empty (footprint_of c).declared_outputs
  pub extra_kept :
      (k : String) → get k c.extra ≡ (if elem k known_step_keys then null else get k step)

contract_of-Stamped :
    (step : Fields) (fp : Footprint)
    → truthy (get "step_id" step) ≡ true
    → (fp.conflicts_with_all ≡ is_empty fp.declared_outputs)
      × (all truthy fp.declared_outputs ≡ true)
    → Stamped step (contract_of step fp)
unfolding contract_of assert_node_contract
contract_of-Stamped step fp named f = record {
  asserted = refl;
  named = named;
  outputs_named = f.1;
  unknown_serialised = f.0;
  extra_kept = λ k. get-extra_of k step;
}

-- Each contract that is stamped from a step passes the contract assertion, has a step id, declares
-- only outputs that have a name, conflicts with all other steps exactly when it declares no output,
-- and its extra part has the value of each key that the template does not know, and nothing else.
pub stamp_node_contract-Stamped :
    (step : Fields) (c : Contract) → stamp_node_contract (obj step) ≡ ok c → Stamped step c
unfolding stamp_node_contract
stamp_node_contract-Stamped step c h =
    let (named, fp, e, whole) = stamp_fields-ok step c h in
    subst (Stamped step) (sym whole)
      (contract_of-Stamped step fp named (static_footprint-ok (as_list (get "outputs" step)) fp e))

-- A step's `phase` and `refinement_back_edges` have no effect on its contract: with or without them
-- the contract, its preserved unknown keys included, is the same.
pub stamp_node_contract-phase :
    (phase edges : Value) (step : Fields)
    → stamp_node_contract (obj (field "phase" phase (field "refinement_back_edges" edges step)))
      ≡ stamp_node_contract (obj step)
unfolding stamp_node_contract stamp_fields contract_of extra_of traces_of normalize_deps
stamp_node_contract-phase phase edges step = refl
