-- ===== src/Scheduler/Dag/Edges.antt =====
-- The keys and the edges of the graph of `build_dag` in epiphany_executor/scheduler.py.
use mathlib.Core.Path.{subst}
use epiphany_executor.Prelude.{
  String, true, ◌&&◌, ◌||◌, ◌≡◌, ◌≢◌, refl, sym, ◌∙◌, ap, ◌⊎◌, inl, inr, Option, none, some, List,
  [], ◌∷◌, ok, >>=-eq-ok, ok_inj, Dict, insert, lookup, lookup-insert, keys, Distinct,
  if◌then◌else◌, ◌==◌, elem, elem-append, length, leb, or_else, keep, arith, eq_iff, eq_refl,
  Bool-cases, All,
}
use epiphany_executor.Value.{Value, str}
use epiphany_executor.Contract.{Contract, Dependency}
use epiphany_executor.Scheduler.Dag.{
  Dag, add, prereqs, prereq_of, add_option, add_prereqs, step_edges, texts?, no_repeat, chain_edges,
  order_edges, order_edges_of, build_dag,
}

elem-add : (s x : String) (xs : List String) → elem s (add x xs) ≡ (x == s || elem s xs)
elem-add s x xs = elim (Bool-cases (elem x xs)) [
  | inl old ↦ rw old (ground (arith, eq_iff x s))
  | inr new ↦ rw new (elem-append s xs (x ∷ []) ∙ ground arith)
]

-- A dependency that names a step other than `sid`.
abbrev pub NamesStep : List String → String → String → Dependency → Type 0
NamesStep ids sid p dep = (dep.on ≡ str p) × (elem p ids ≡ true) × (p ≢ sid)

prereq_of-ids :
    (ids : List String) (sid p : String) (v : Value)
    → prereq_of ids sid v ≡ ok (some p)
    → elem p ids ≡ true
unfolding prereq_of
prereq_of-ids ids sid p (str on) h = ground arith
prereq_of-ids ids sid p _ h = cc

elem-add_option-of :
    (s : String) (o : Option String) (xs : List String)
    → elem s (add_option o xs) ≡ true
    → (o ≡ some s) ⊎ (elem s xs ≡ true)
elem-add_option-of s none xs h = inr h
elem-add_option-of s (some x) xs h = ground (arith, elem-add s x xs, eq_iff x s)

add_prereqs-ids :
    (ids : List String) (sid p : String) (deps : List Dependency) (s s' : List String)
    → add_prereqs ids sid deps s ≡ ok s'
    → ((q : String) → elem q s ≡ true → elem q ids ≡ true)
    → elem p s' ≡ true
    → elem p ids ≡ true
unfolding add_prereqs
add_prereqs-ids ids sid p [] s s' h below m = below p (rw (sym (ok_inj h)) at m)
add_prereqs-ids ids sid p (dep ∷ deps) s s' h below m =
    let (found, e, rest) = >>=-eq-ok (prereq_of ids sid dep.on) _ h in
    add_prereqs-ids ids sid p deps (add_option found s) s' rest
      (λ q k. elim (elem-add_option-of q found s k) [
        | inl new ↦ prereq_of-ids ids sid q dep.on (e ∙ ap ok new)
        | inr old ↦ below q old
      ])
      m

add_option_keeps :
    (p : String) (o : Option String) (s : List String)
    → elem p s ≡ true
    → elem p (add_option o s) ≡ true
add_option_keeps p none s m = m
add_option_keeps p (some x) s m = ground (arith, elem-add p x s)

add_prereqs_keeps :
    (ids : List String) (sid p : String) (deps : List Dependency) (s s' : List String)
    → add_prereqs ids sid deps s ≡ ok s'
    → elem p s ≡ true
    → elem p s' ≡ true
unfolding add_prereqs
add_prereqs_keeps ids sid p [] s s' h m = rw (sym (ok_inj h)) m
add_prereqs_keeps ids sid p (dep ∷ deps) s s' h m =
    let (found, e, rest) = >>=-eq-ok (prereq_of ids sid dep.on) _ h in
    add_prereqs_keeps ids sid p deps (add_option found s) s' rest (add_option_keeps p found s m)

-- There is such a dependency in the list.
abbrev pub SomeDep : (Dependency → Type 0) → List Dependency → Type 0
SomeDep P [] = ⊥
SomeDep P (dep ∷ deps) = P dep ⊎ SomeDep P deps

prereq_of-names :
    (ids : List String) (sid p : String) (v : Value)
    → v ≡ str p
    → elem p ids ≡ true
    → p ≢ sid
    → prereq_of ids sid v ≡ ok (some p)
unfolding prereq_of
prereq_of-names ids sid p v e m ne = rw e (ground (arith, eq_iff p sid))

add_prereqs-names :
    (ids : List String) (sid p : String) (deps : List Dependency) (s s' : List String)
    → add_prereqs ids sid deps s ≡ ok s'
    → SomeDep (NamesStep ids sid p) deps
    → elem p s' ≡ true
unfolding add_prereqs
add_prereqs-names ids sid p [] s s' h m = absurd m
add_prereqs-names ids sid p (dep ∷ deps) s s' h (inl (on, m, ne)) =
    let (found, e, rest) = >>=-eq-ok (prereq_of ids sid dep.on) _ h in
    let same = ok_inj (sym e ∙ prereq_of-names ids sid p dep.on on m ne) in
    add_prereqs_keeps ids sid p deps (add_option found s) s' rest
      (rw same (elem-add p p s ∙ ground (arith, eq_refl p)))
add_prereqs-names ids sid p (dep ∷ deps) s s' h (inr later) =
    let (found, e, rest) = >>=-eq-ok (prereq_of ids sid dep.on) _ h in
    add_prereqs-names ids sid p deps (add_option found s) s' rest later

-- What the loop over the contracts gives.
record IsEdges (ids : List String) (contracts : Dict Contract) (dag : Dag) : Type 0 where
  same_keys : keys dag ≡ keys contracts
  closed : (s p : String) → elem p (prereqs dag s) ≡ true → elem p ids ≡ true
  complete :
      (s p : String) (c : Contract)
      → lookup s contracts ≡ some c
      → SomeDep (NamesStep ids s p) c.dependencies
      → elem p (prereqs dag s) ≡ true

step_edges-IsEdges :
    (ids : List String) (contracts : Dict Contract) (dag : Dag)
    → step_edges ids contracts ≡ ok dag
    → IsEdges ids contracts dag
unfolding step_edges
step_edges-IsEdges ids [] dag h =
    rw (sym (ok_inj h))
      (record { same_keys = refl; closed = λ s p m. cc; complete = λ s p c e m. cc })
step_edges-IsEdges ids ((sid, c) ∷ rest) dag h =
    let (ps, e, h1) = >>=-eq-ok (add_prereqs ids sid c.dependencies []) _ h in
    let (dag', f, h2) = >>=-eq-ok (step_edges ids rest) _ h1 in
    let ih = step_edges-IsEdges ids rest dag' f in
    rw (sym (ok_inj h2)) (record {
      same_keys = ap (λ ks. sid ∷ ks) ih.same_keys;
      closed = λ s p m. elim (Bool-cases (sid == s)) [
        | inl same ↦ add_prereqs-ids ids sid p c.dependencies [] ps e (λ q k. cc) (rw same at m)
        | inr other ↦ ih.closed s p (rw other at m)
      ];
      complete = λ s p d found names. elim (Bool-cases (sid == s)) [
        | inl same ↦ rw same (
            add_prereqs-names ids sid p c.dependencies [] ps e
              (here s p d (rw same at found) ((eq_iff sid s).0 same) names))
        | inr other ↦ rw other (ih.complete s p d (rw other at found) names)
      ];
    })
  where
    here :
        (s p : String) (d : Contract)
        → some c ≡ some d
        → sid ≡ s
        → SomeDep (NamesStep ids s p) d.dependencies
        → SomeDep (NamesStep ids sid p) c.dependencies
    here s p d found same names =
        let e : d ≡ c = cc in
        subst (λ k. SomeDep (NamesStep ids k p) c.dependencies) (sym same)
          (subst (λ (x : Contract). SomeDep (NamesStep ids s p) x.dependencies) e names)

keys-insert :
    (k : String) (v : List String) (dag : Dag)
    → elem k (keys dag) ≡ true
    → keys (insert k v dag) ≡ keys dag
keys-insert k v [] m = cc
keys-insert k v ((j, w) ∷ dag) m = ground (arith, eq_iff j k, keys-insert k v dag)

prereqs-insert :
    (k s : String) (v : List String) (dag : Dag)
    → prereqs (insert k v dag) s ≡ (if k == s then v else prereqs dag s)
prereqs-insert k s v dag = ap (λ o. or_else o []) (lookup-insert k s v dag) ∙ ground arith

-- What the build order may change: it adds edges among the ids, and removes none.
record Extends (ids : List String) (dag dag' : Dag) : Type 0 where
  same_keys : keys dag' ≡ keys dag
  keeps : (s p : String) → elem p (prereqs dag s) ≡ true → elem p (prereqs dag' s) ≡ true
  news :
      (s p : String)
      → elem p (prereqs dag' s) ≡ true
      → (elem p (prereqs dag s) ≡ true) ⊎ (elem p ids ≡ true)

Extends-refl : (ids : List String) (dag : Dag) → Extends ids dag dag
Extends-refl ids dag = record { same_keys = refl; keeps = λ s p m. m; news = λ s p m. inl m }

Extends-insert :
    (ids : List String) (prev cur : String) (dag : Dag)
    → elem prev ids ≡ true
    → elem cur (keys dag) ≡ true
    → Extends ids dag (insert cur (add prev (prereqs dag cur)) dag)
Extends-insert ids prev cur dag p c = record {
  same_keys = keys-insert cur (add prev (prereqs dag cur)) dag c;
  keeps = λ s q m. elim (Bool-cases (cur == s)) [
    | inl same ↦
        rw (prereqs-insert cur s (add prev (prereqs dag cur)) dag, same)
          (rw elem-add (ground (arith, eq_iff cur s)))
    | inr other ↦ rw (prereqs-insert cur s (add prev (prereqs dag cur)) dag, other) m
  ];
  news = λ s q m. ground (
    arith,
    eq_iff cur s,
    prereqs-insert cur s (add prev (prereqs dag cur)) dag,
    elem-add q prev (prereqs dag cur),
    eq_iff prev q,
  );
}

Extends-trans :
    (ids : List String) (a b c : Dag) → Extends ids a b → Extends ids b c → Extends ids a c
Extends-trans ids a b c f g = record {
  same_keys = g.same_keys ∙ f.same_keys;
  keeps = λ s p m. g.keeps s p (f.keeps s p m);
  news = λ s p m. elim (g.news s p m) [ inl k ↦ f.news s p k | inr k ↦ inr k ];
}

chain_edges-Extends :
    (ids seq : List String) (dag : Dag)
    → All (λ x. elem x ids ≡ true) seq
    → keys dag ≡ ids
    → Extends ids dag (chain_edges seq dag)
unfolding chain_edges
chain_edges-Extends ids [] dag a k = Extends-refl ids dag
chain_edges-Extends ids (prev ∷ []) dag a k = Extends-refl ids dag
chain_edges-Extends ids (prev ∷ cur ∷ rest) dag a k =
    let step = Extends-insert ids prev cur dag a.0 (rw k a.1.0) in
    Extends-trans ids dag _ _ step (chain_edges-Extends ids (cur ∷ rest) _ a.1 (step.same_keys ∙ k))

All-keep : (ids texts : List String) → All (λ x. elem x ids ≡ true) (keep (λ x. elem x ids) texts)
All-keep ids [] = tt
All-keep ids (x ∷ texts) = elim (Bool-cases (elem x ids)) [
  | inl known ↦ rw known (known, All-keep ids texts)
  | inr other ↦ rw other (All-keep ids texts)
]

order_edges_of-Extends :
    (ids : List String) (texts : Option (List String)) (dag : Dag)
    → keys dag ≡ ids
    → Extends ids dag (order_edges_of ids texts dag)
unfolding order_edges
order_edges_of-Extends ids none dag k = Extends-refl ids dag
order_edges_of-Extends ids (some texts) dag k =
    let seq = keep (λ x. elem x ids) texts in
    elim (Bool-cases (leb 2 (length seq) && no_repeat seq)) [
      | inl clean ↦ rw clean (chain_edges-Extends ids seq dag (All-keep ids texts) k)
      | inr other ↦ rw other (Extends-refl ids dag)
    ]

Distinct-keys : {V W : Type 0} (d : Dict V) (e : Dict W) → keys d ≡ keys e → Distinct e → Distinct d
Distinct-keys [] e h k = tt
Distinct-keys ((i, v) ∷ d) [] h k = cc
Distinct-keys ((i, v) ∷ d) ((j, w) ∷ e) h k =
    let heads : i ≡ j = cc in
    let tails : keys d ≡ keys e = cc in (rw (heads, tails) k.0, Distinct-keys d e tails k.1)

-- What a built graph is: its keys, its closure, and the edges that the contracts demand.
pub build_dag_sound :
    (contracts : Dict Contract) (build_order : List Value) (dag : Dag)
    → Distinct contracts
    → build_dag contracts build_order ≡ ok dag
    → (keys dag ≡ keys contracts)
      × Distinct dag
      × ((s p : String) → elem p (prereqs dag s) ≡ true → elem p (keys contracts) ≡ true)
      × ((s p : String) (c : Contract)
          → lookup s contracts ≡ some c
          → SomeDep (NamesStep (keys contracts) s p) c.dependencies
          → elem p (prereqs dag s) ≡ true)
unfolding build_dag
build_dag_sound contracts build_order dag d h =
    let ids = keys contracts in
    let (edges, e, last) = >>=-eq-ok (step_edges ids contracts) _ h in
    let base = step_edges-IsEdges ids contracts edges e in
    let ext =
      subst (Extends ids edges) (ok_inj last)
        (order_edges_of-Extends ids (texts? build_order) edges base.same_keys) in
    let same = ext.same_keys ∙ base.same_keys in
    (
      same,
      Distinct-keys dag contracts same d,
      λ s p m. elim (ext.news s p m) [ inl old ↦ base.closed s p old | inr new ↦ new ],
      λ s p c found names. ext.keeps s p (base.complete s p c found names),
    )

-- In the graph of contracts with distinct ids, every dependency of a step on another step of the
-- plan is a prerequisite of it, whatever the build order adds.
pub build_dag-dependency :
    (contracts : Dict Contract) (build_order : List Value) (dag : Dag) (s p : String) (c : Contract)
    → Distinct contracts
    → build_dag contracts build_order ≡ ok dag
    → lookup s contracts ≡ some c
    → SomeDep (NamesStep (keys contracts) s p) c.dependencies
    → elem p (prereqs dag s) ≡ true
build_dag-dependency contracts build_order dag s p c d h found names =
    (build_dag_sound contracts build_order dag d h).3 s p c found names

-- The graph of contracts with distinct ids has those ids as its keys, in their order, and every
-- prerequisite in it is one of them.
pub build_dag-closed :
    (contracts : Dict Contract) (build_order : List Value) (dag : Dag) (s p : String)
    → Distinct contracts
    → build_dag contracts build_order ≡ ok dag
    → elem p (prereqs dag s) ≡ true
    → (keys dag ≡ keys contracts) × (elem p (keys dag) ≡ true)
build_dag-closed contracts build_order dag s p d h m =
    let (same, _, closed, _) = build_dag_sound contracts build_order dag d h in
    (same, ap (elem p) same ∙ closed s p m)
