-- ===== src/Scheduler/Layers/Order.antt =====
-- The steps in the layers of `topo_layers` in epiphany_executor/scheduler.py, and their order.
use epiphany_executor.Prelude.{
  ℕ, zero, suc, ◌+◌, ◌<◌, String, true, false, ◌≡◌, refl, sym, ◌∙◌, ap, ◌⊎◌, inl, inr, List, [],
  ◌∷◌, ◌++◌, if◌then◌else◌, elem, count, count-append, elem-append, elem-eq-true-count,
  count-pos-elem, keys, lookup, Distinct, Bool-cases, subset, subset-elem, arith, length, flatten,
  ok, >>=-eq-ok, ok_inj, is_empty, or_else,
}
use epiphany_executor.Scheduler.Dag.{Dag, prereqs}
use epiphany_executor.Scheduler.Cycle.{search_cycle}
use epiphany_executor.Scheduler.Layers.{layers_from, reject_cycle, topo_layers}
use epiphany_executor.Scheduler.Layers.Rounds.{
  layer_of, left_of, count-round, layer_ready, lookup-remove_ids, count-remove_ids,
  remove_ids-Distinct,
}

-- A successful round: the layer is not empty, and the rest is layered from what is done by then.
pub layers_from-cons :
    (fuel : ℕ) (done : List String) (x : String × List String) (dag : Dag)
    {layers : List (List String)}
    → layers_from (suc fuel) done (x ∷ dag) ≡ ok layers
    → (later : List (List String)) × (layers ≡ layer_of done (x ∷ dag) ∷ later)
      × (layers_from fuel (done ++ layer_of done (x ∷ dag)) (left_of done (x ∷ dag)) ≡ ok later)
unfolding layers_from
layers_from-cons fuel done x dag h = elim (Bool-cases (is_empty (layer_of done (x ∷ dag)))) [
  | inl stalled ↦ cc (rw stalled at h)
  | inr some_ready ↦
      let (later, e, p) = >>=-eq-ok (layers_from fuel _ _) _ (rw some_ready at h) in
      (later, sym (ok_inj p), e)
]

pub count-layers_from :
    (s : String) (fuel : ℕ) (done : List String) (dag : Dag) (layers : List (List String))
    → Distinct dag
    → layers_from fuel done dag ≡ ok layers
    → count s (flatten layers) ≡ count s (keys dag)
unfolding layers_from
count-layers_from s zero done [] layers d h = rw (sym (ok_inj h)) refl
count-layers_from s (suc fuel) done [] layers d h = rw (sym (ok_inj h)) refl
count-layers_from s zero done (x ∷ dag) layers d h = cc
count-layers_from s (suc fuel) done (x ∷ dag) layers d h =
    let (later, e, p) = layers_from-cons fuel done x dag h in
    let ready = layer_of done (x ∷ dag) in
    rw e (
      count-append s ready (flatten later)
      ∙ ap (λ k. count s ready + k)
          (count-layers_from s fuel (done ++ ready) (left_of done (x ∷ dag)) later
            (remove_ids-Distinct ready (x ∷ dag) d) p)
      ∙ count-round s done (x ∷ dag) d)

-- Each member of each layer has its prerequisites in `done` or in an earlier layer.
abbrev pub Layered : Dag → List String → List (List String) → Type 0
Layered dag done [] = Unit
Layered dag done (layer ∷ layers) =
    ((s : String) → elem s layer ≡ true → subset (prereqs dag s) done ≡ true)
    × Layered dag (done ++ layer) layers

-- What is left of the graph agrees with the whole.
abbrev pub Agrees : Dag → Dag → Type 0
Agrees left dag = (s : String) → elem s (keys left) ≡ true → prereqs left s ≡ prereqs dag s

pub elem-layer-keys :
    (s : String) (done : List String) (dag : Dag)
    → Distinct dag
    → elem s (layer_of done dag) ≡ true
    → elem s (keys dag) ≡ true
elem-layer-keys s done dag d m =
    count-pos-elem s (keys dag)
      (omega (arith, count-round s done dag d, elem-eq-true-count s (layer_of done dag) m))

pub left_of-Agrees :
    (done : List String) (left dag : Dag)
    → Agrees left dag
    → Distinct left
    → Agrees (left_of done left) dag
left_of-Agrees done left dag a d s m = elim (Bool-cases (elem s (layer_of done left))) [
  | inl gone ↦
      absurd (omega (arith, elem-eq-true-count s (keys (left_of done left)) m, absent gone))
  | inr kept ↦
      ap (λ o. or_else o []) {y = lookup s left}
        (lookup-remove_ids s (layer_of done left) left ∙ rw kept refl)
      ∙ a s (
          count-pos-elem s (keys left) (
            omega (
              arith,
              count-round s done left d,
              elem-eq-true-count s (keys (left_of done left)) m,
            )))
]
  where
    absent : elem s (layer_of done left) ≡ true → count s (keys (left_of done left)) ≡ 0
    absent gone = count-remove_ids s (layer_of done left) left ∙ rw gone refl

layers_from-Layered :
    (dag : Dag) (fuel : ℕ) (done : List String) (left : Dag) (layers : List (List String))
    → Distinct left
    → Agrees left dag
    → layers_from fuel done left ≡ ok layers
    → Layered dag done layers
unfolding layers_from
layers_from-Layered dag zero done [] layers d a h = rw (sym (ok_inj h)) tt
layers_from-Layered dag (suc fuel) done [] layers d a h = rw (sym (ok_inj h)) tt
layers_from-Layered dag zero done (x ∷ left) layers d a h = cc
layers_from-Layered dag (suc fuel) done (x ∷ left) layers d a h =
    let (later, e, p) = layers_from-cons fuel done x left h in
    let ready = layer_of done (x ∷ left) in
    rw e (
      λ s m.
          subst_prereqs (a s (elem-layer-keys s done (x ∷ left) d m))
            (layer_ready s done (x ∷ left) d m),
      layers_from-Layered dag fuel (done ++ ready) (left_of done (x ∷ left)) later
          (remove_ids-Distinct ready (x ∷ left) d) (left_of-Agrees done (x ∷ left) dag a d) p,
    )
  where
    subst_prereqs : {ps qs : List String} → ps ≡ qs → subset ps done ≡ true → subset qs done ≡ true
    subst_prereqs e h = rw e at h

topo_layers-eq-ok :
    (dag : Dag) (layers : List (List String))
    → topo_layers dag ≡ ok layers
    → layers_from (length dag) [] dag ≡ ok layers
unfolding topo_layers
topo_layers-eq-ok dag layers h =
    let (_, _, p) = >>=-eq-ok (reject_cycle (search_cycle dag)) _ h in p

-- The position of the first layer that holds a step.
abbrev pub layer_index : String → List (List String) → ℕ
layer_index s [] = 0
layer_index s (layer ∷ layers) = if elem s layer then 0 else suc (layer_index s layers)

-- A prerequisite was done before, or stands in an earlier layer.
layer_index-lt :
    (dag : Dag) (s p : String) (done : List String) (layers : List (List String))
    → Layered dag done layers
    → elem s (flatten layers) ≡ true
    → elem p (prereqs dag s) ≡ true
    → (elem p done ≡ true) ⊎ (layer_index p layers < layer_index s layers)
layer_index-lt dag s p done [] l m q = cc
layer_index-lt dag s p done (layer ∷ layers) l m q = elim (Bool-cases (elem s layer)) [
  | inl here ↦ inl (subset-elem p (prereqs dag s) done (l.0 s here) q)
  | inr later ↦ ground (
    arith,
    elem-append p done layer,
    elem-append s layer (flatten layers),
    layer_index-lt dag s p (done ++ layer) layers l.1,
  )
]

earlier {ℓ} : {A : Type ℓ} → (false ≡ true) ⊎ A → A
earlier (inl nowhere) = cc
earlier (inr a) = a

-- What a layering is: the steps in it, and their order.
pub topo_layers_sound :
    (dag : Dag) (layers : List (List String))
    → Distinct dag
    → topo_layers dag ≡ ok layers
    → ((s : String) → count s (flatten layers) ≡ count s (keys dag))
      × ((s p : String)
          → elem s (keys dag) ≡ true
          → elem p (prereqs dag s) ≡ true
          → layer_index p layers < layer_index s layers)
topo_layers_sound dag layers d h =
    let run = topo_layers-eq-ok dag layers h in
    let counts = λ (s : String). count-layers_from s (length dag) [] dag layers d run in
    let layered = layers_from-Layered dag (length dag) [] dag layers d (λ s m. refl) run in
    (
      counts,
      λ s p m q. earlier (
          layer_index-lt dag s p [] layers layered
            (count-pos-elem s (flatten layers)
              (omega (arith, counts s, elem-eq-true-count s (keys dag) m)))
            q),
    )

-- In the layers of a graph with distinct keys, each prerequisite of a step of the graph stands in an
-- earlier layer than the step.
pub topo_layers_before :
    (dag : Dag) (layers : List (List String)) (s p : String)
    → Distinct dag
    → topo_layers dag ≡ ok layers
    → elem s (keys dag) ≡ true
    → elem p (prereqs dag s) ≡ true
    → layer_index p layers < layer_index s layers
topo_layers_before dag layers s p d h m q = (topo_layers_sound dag layers d h).1 s p m q
