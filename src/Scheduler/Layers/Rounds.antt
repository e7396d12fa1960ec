-- ===== src/Scheduler/Layers/Rounds.antt =====
-- One round of `topo_layers` in epiphany_executor/scheduler.py: the steps that are ready, and the rest.
use epiphany_executor.Prelude.{
  ◌+◌, ◌<◌, ◌≤◌, String, true, false, ◌≡◌, refl, inl, inr, none, List, [], ◌∷◌, if◌then◌else◌, elem,
  count, count-zero_of_absent, elem-eq-true-count, keys, lookup, Distinct, Bool-cases, subset,
  arith, eq_iff, length, sorted, count-sorted,
}
use epiphany_executor.Scheduler.Dag.{Dag, prereqs}
use epiphany_executor.Scheduler.Layers.{ready_ids, remove_ids}

count-ready-le :
    (s : String) (done : List String) (dag : Dag)
    → count s (ready_ids done dag) ≤ count s (keys dag)
unfolding ready_ids
count-ready-le s done [] = omega arith
count-ready-le s done ((n, ps) ∷ dag) = ground (arith, count-ready-le s done dag)

-- A key whose prerequisites are done is ready, and no other.
pub count-ready_ids :
    (s : String) (done : List String) (dag : Dag)
    → Distinct dag
    → count s (ready_ids done dag) ≡ (if subset (prereqs dag s) done then count s (keys dag) else 0)
unfolding ready_ids
count-ready_ids s done [] d = refl
count-ready_ids s done ((n, ps) ∷ dag) d = ground (
  arith,
  eq_iff n s,
  count-ready_ids s done dag d.1,
  count-ready-le s done dag,
  d.0,
  count-zero_of_absent s (keys dag),
)

pub count-remove_ids :
    (s : String) (ready : List String) (dag : Dag)
    → count s (keys (remove_ids ready dag)) ≡ (if elem s ready then 0 else count s (keys dag))
unfolding remove_ids
count-remove_ids s ready [] = ground arith
count-remove_ids s ready ((n, ps) ∷ dag) = ground (arith, eq_iff n s, count-remove_ids s ready dag)

pub lookup-remove_ids :
    (s : String) (ready : List String) (dag : Dag)
    → lookup s (remove_ids ready dag) ≡ (if elem s ready then none else lookup s dag)
unfolding remove_ids
lookup-remove_ids s ready [] = ground arith
lookup-remove_ids s ready ((n, ps) ∷ dag) =
    ground (arith, eq_iff n s, lookup-remove_ids s ready dag)

elem-remove_ids :
    (s : String) (ready : List String) (dag : Dag)
    → elem s (keys (remove_ids ready dag)) ≡ (if elem s ready then false else elem s (keys dag))
unfolding remove_ids
elem-remove_ids s ready [] = ground arith
elem-remove_ids s ready ((n, ps) ∷ dag) = ground (arith, eq_iff n s, elem-remove_ids s ready dag)

pub remove_ids-Distinct :
    (ready : List String) (dag : Dag) → Distinct dag → Distinct (remove_ids ready dag)
unfolding remove_ids
remove_ids-Distinct ready [] d = d
remove_ids-Distinct ready ((n, ps) ∷ dag) d = elim (Bool-cases (elem n ready)) [
  | inl gone ↦ rw gone (remove_ids-Distinct ready dag d.1)
  | inr kept ↦
      rw kept
        (rw (elem-remove_ids n ready dag) (ground (arith, d.0)), remove_ids-Distinct ready dag d.1)
]

-- The layer of one round, and what is left.
abbrev pub layer_of : List String → Dag → List String
layer_of done dag = sorted (ready_ids done dag)

abbrev pub left_of : List String → Dag → Dag
left_of done dag = remove_ids (layer_of done dag) dag

-- Every key goes into the layer or stays, as often as it stood.
pub count-round :
    (s : String) (done : List String) (dag : Dag)
    → Distinct dag
    → count s (layer_of done dag) + count s (keys (left_of done dag)) ≡ count s (keys dag)
count-round s done dag d = ground (
  arith,
  count-remove_ids s (layer_of done dag) dag,
  count-sorted s (ready_ids done dag),
  count-ready_ids s done dag d,
  elem-eq-true-count s (layer_of done dag),
  count-zero_of_absent s (layer_of done dag),
)

-- A member of the layer has its prerequisites done.
pub layer_ready :
    (s : String) (done : List String) (dag : Dag)
    → Distinct dag
    → elem s (layer_of done dag) ≡ true
    → subset (prereqs dag s) done ≡ true
layer_ready s done dag d m = ground (
  arith,
  elem-eq-true-count s (layer_of done dag),
  count-sorted s (ready_ids done dag),
  count-ready_ids s done dag d,
)

pub length-remove_ids-le :
    (ready : List String) (dag : Dag) → length (remove_ids ready dag) ≤ length dag
unfolding remove_ids
length-remove_ids-le ready [] = omega arith
length-remove_ids-le ready ((n, ps) ∷ dag) = ground (arith, length-remove_ids-le ready dag)

-- Removing a key makes the graph smaller.
pub length-remove_ids-lt :
    (s : String) (ready : List String) (dag : Dag)
    → elem s ready ≡ true
    → elem s (keys dag) ≡ true
    → length (remove_ids ready dag) < length dag
unfolding remove_ids
length-remove_ids-lt s ready [] r k = ground arith
length-remove_ids-lt s ready ((n, ps) ∷ dag) r k =
    ground (arith, eq_iff n s, length-remove_ids-le ready dag, length-remove_ids-lt s ready dag)
