-- ===== src/Scheduler/Dag.antt =====
-- `build_dag` of epiphany_executor/scheduler.py. A set of step ids is a list with each id once.
pub mod Edges
use epiphany_executor.Prelude.{
  ℕ, String, Bool, true, false, not, ◌&&◌, ◌||◌, Option, none, some, List, [], ◌∷◌, ◌++◌, Result,
  ok, err, ◌>>=◌, type_error, Dict, insert, lookup, keys, if◌then◌else◌, ◌==◌, elem, length, leb,
  or_else, keep, ◌≡◌, refl, arith,
}
use epiphany_executor.Value.{Value, null, bool, nat, negative, float, str, arr, obj, truthy}
use epiphany_executor.Contract.{Contract, Dependency}

-- step id ↦ its prerequisites
abbrev pub Dag : Type 0
Dag = Dict (List String)

-- `s.add(x)`
abbrev pub add : String → List String → List String
add x s = if elem x s then s else s ++ x ∷ []

-- `dag.get(n, ())`
abbrev pub prereqs : Dag → String → List String
prereqs dag n = or_else (lookup n dag) []

-- The prerequisite that one dependency names: `on in ids and on != sid`. A list or a dict as
-- `on` has no hash, so that the test raises.
prereq_of : List String → String → Value → Result (Option String)
prereq_of ids sid (str on) = ok (if elem on ids && not (on == sid) then some on else none)
prereq_of ids sid (arr vs) = err type_error
prereq_of ids sid (obj fs) = err type_error
prereq_of ids sid v = ok none

abbrev add_option : Option String → List String → List String
add_option none s = s
add_option (some x) s = add x s

-- the inner loop over the dependencies of one step, with the set built so far
add_prereqs : List String → String → List Dependency → List String → Result (List String)
unfolding prereq_of
add_prereqs ids sid [] s = ok s
add_prereqs ids sid (dep ∷ deps) s = do
  found ← prereq_of ids sid dep.on
  add_prereqs ids sid deps (add_option found s)

-- the outer loop over the contracts
step_edges : List String → Dict Contract → Result Dag
unfolding add_prereqs
step_edges ids [] = ok []
step_edges ids ((sid, c) ∷ rest) = do
  ps ← add_prereqs ids sid c.dependencies []
  dag ← step_edges ids rest
  ok ((sid, ps) ∷ dag)

-- `all(isinstance(x, str) for x in build_order)`, with the texts
texts? : List Value → Option (List String)
texts? [] = some []
texts? (str s ∷ vs) = elim (texts? vs) [ none ↦ none | some ss ↦ some (s ∷ ss) ]
texts? (v ∷ vs) = none

-- `len(set(seq)) == len(seq)`
no_repeat : List String → Bool
no_repeat [] = true
no_repeat (x ∷ xs) = not (elem x xs) && no_repeat xs

-- `for prev, cur in zip(seq, seq[1:]): dag[cur].add(prev)`
chain_edges : List String → Dag → Dag
chain_edges [] dag = dag
chain_edges (prev ∷ []) dag = dag
chain_edges (prev ∷ cur ∷ rest) dag =
    chain_edges (cur ∷ rest) (insert cur (add prev (prereqs dag cur)) dag)

order_edges : List String → List String → Dag → Dag
unfolding no_repeat chain_edges
order_edges ids texts dag =
    let seq = keep (λ x. elem x ids) texts in
    if leb 2 (length seq) && no_repeat seq then chain_edges seq dag else dag

abbrev order_edges_of : List String → Option (List String) → Dag → Dag
order_edges_of ids none dag = dag
order_edges_of ids (some texts) dag = order_edges ids texts dag

unfoldable pub build_dag : Dict Contract → List Value → Result Dag
unfolding step_edges texts? order_edges
build_dag contracts build_order = do
  dag ← step_edges (keys contracts) contracts
  ok (order_edges_of (keys contracts) (texts? build_order) dag)
