-- ===== src/Scheduler/Layers/Total.antt =====
-- When `topo_layers` of epiphany_executor/scheduler.py returns.
use epiphany_executor.Prelude.{
  ℕ, zero, suc, ◌≤◌, String, true, false, ◌≡◌, refl, ◌∙◌, ◌⊎◌, inl, inr, List, [], ◌∷◌, ◌++◌, elem,
  count, count-zero_of_absent, elem-append, elem-eq-true-count, count-pos-elem, keys, Distinct,
  Bool-cases, subset_of_members, arith, eq_iff, eq_refl, length, ok, is_empty, elem-sorted, leb,
}
use epiphany_executor.Scheduler.Dag.{Dag, prereqs}
use epiphany_executor.Scheduler.Cycle.Acyclic.{Ranked, search_cycle_clean}
use epiphany_executor.Scheduler.Layers.{ready_ids, layers_from, reject_cycle, topo_layers}
use epiphany_executor.Scheduler.Layers.Rounds.{
  layer_of, left_of, count-round, count-ready_ids, remove_ids-Distinct, length-remove_ids-lt,
}
use epiphany_executor.Scheduler.Layers.Order.{Agrees, left_of-Agrees}

-- Every prerequisite is a step of the graph.
abbrev pub Closed : Dag → Type 0
Closed dag = (s p : String) → elem p (prereqs dag s) ≡ true → elem p (keys dag) ≡ true

-- A key of least rank.
abbrev Least : (String → ℕ) → Dag → Type 0
Least rank dag =
    (n : String) × (elem n (keys dag) ≡ true)
    × ((m : String) → elem m (keys dag) ≡ true → rank n ≤ rank m)

Least-key : (rank : String → ℕ) (x : String × List String) (dag : Dag) → Least rank (x ∷ dag)
Least-key rank (k, ps) [] = (k, ground (arith, eq_refl k), λ m h. ground (arith, eq_iff k m))
Least-key rank (k, ps) (y ∷ dag) =
    let (n, m, le) = Least-key rank y dag in
    elim (Bool-cases (leb (rank k) (rank n))) [
      | inl first ↦ (k, ground (arith, eq_refl k), λ j h. ground (arith, eq_iff k j, le j))
      | inr later ↦ (n, ground (arith, eq_iff k n), λ j h. ground (arith, eq_iff k j, le j))
    ]

is_empty_of_member : (s : String) (xs : List String) → elem s xs ≡ true → is_empty xs ≡ false
is_empty_of_member s [] h = cc
is_empty_of_member s (x ∷ xs) h = refl

module _ (rank : String → ℕ) (dag : Dag) (ranked : Ranked rank dag) (closed : Closed dag) where
  -- Every step is done or left.
  abbrev Covers : List String → Dag → Type 0
  Covers done left =
      (s : String) → elem s (keys dag) ≡ true → (elem s done ≡ true) ⊎ (elem s (keys left) ≡ true)

  -- A step of least rank among those left is ready.
  ready_member :
      (done : List String) (left : Dag)
      → Distinct left
      → Agrees left dag
      → Covers done left
      → Least rank left
      → (n : String) × (elem n (layer_of done left) ≡ true) × (elem n (keys left) ≡ true)
  ready_member done left d a c (n, m, le) =
      let waits = subset_of_members (prereqs left n) done (λ p h.
        let q : elem p (prereqs dag n) ≡ true = rw (a n m) at h in
        done_first p q (c p (closed n p q))) in
      (
        n,
        elem-sorted n (ready_ids done left)
            ∙ count-pos-elem n (ready_ids done left) (
                ground (
                  arith,
                  count-ready_ids n done left d,
                  waits,
                  elem-eq-true-count n (keys left) m,
                )),
        m,
      )
    where
      done_first :
          (p : String)
          → elem p (prereqs dag n) ≡ true
          → (elem p done ≡ true) ⊎ (elem p (keys left) ≡ true)
          → elem p done ≡ true
      done_first p q (inl h) = h
      done_first p q (inr h) = absurd (omega (arith, ranked n p q, le p h))

  left_of-Covers :
      (done : List String) (left : Dag)
      → Distinct left
      → Covers done left
      → Covers (done ++ layer_of done left) (left_of done left)
  left_of-Covers done left d c s m = elim (c s m) [
    | inl h ↦ inl (elem-append s done (layer_of done left) ∙ ground arith)
    | inr h ↦ elim (Bool-cases (elem s (layer_of done left))) [
      | inl now ↦ inl (elem-append s done (layer_of done left) ∙ ground arith)
      | inr later ↦ inr (
          count-pos-elem s (keys (left_of done left)) (
            omega
              (arith, count-round s done left d, elem-eq-true-count s (keys left) h, absent later)))
    ]
  ]
    where
      absent : elem s (layer_of done left) ≡ false → count s (layer_of done left) ≡ 0
      absent h = count-zero_of_absent s (layer_of done left) h

  layers_from_total :
      (fuel : ℕ) (done : List String) (left : Dag)
      → Distinct left
      → Agrees left dag
      → Covers done left
      → length left ≤ fuel
      → (layers : List (List String)) × (layers_from fuel done left ≡ ok layers)
  unfolding layers_from
  layers_from_total zero done [] d a c f = ([], refl)
  layers_from_total (suc fuel) done [] d a c f = ([], refl)
  layers_from_total zero done (x ∷ left) d a c f = absurd (omega arith)
  layers_from_total (suc fuel) done (x ∷ left) d a c f =
      let all = x ∷ left in
      let (n, now, m) = ready_member done all d a c (Least-key rank x left) in
      let ready = layer_of done all in
      let (later, e) =
        layers_from_total fuel (done ++ ready) (left_of done all) (remove_ids-Distinct ready all d)
          (left_of-Agrees done all dag a d) (left_of-Covers done all d c)
          (omega (arith, length-remove_ids-lt n ready all now m)) in
      (ready ∷ later, rw (is_empty_of_member n ready now, e) refl)

-- On a graph with distinct keys whose prerequisites are all keys, and on which some rank falls
-- along every edge (so that it has no cycle), the layering returns layers.
pub topo_layers_total :
    (rank : String → ℕ) (dag : Dag)
    → Distinct dag
    → Closed dag
    → Ranked rank dag
    → (layers : List (List String)) × (topo_layers dag ≡ ok layers)
unfolding topo_layers reject_cycle
topo_layers_total rank dag d closed ranked =
    let (t, clean) = search_cycle_clean rank dag ranked in
    let (layers, e) =
      layers_from_total rank dag ranked closed (length dag) [] dag d (λ s m. refl) (λ s m. inr m)
        (omega arith) in
    (layers, rw clean e)
