-- ===== src/Coverage/Orphans.antt =====
-- The matrix of epiphany_executor/coverage.py against the steps, and its orphans against the matrix.
use mathlib.Core.List.{append_assoc, append-nil}
use epiphany_executor.Prelude.{
  String, ◌&&◌, ◌≡◌, refl, sym, ◌∙◌, ap, List, [], ◌∷◌, ◌++◌, ok, Dict, insert, lookup,
  lookup-insert, keys, or_else, is_empty, if◌then◌else◌, ◌==◌, sorted, dedup, elem, elem-sorted,
  elem-dedup, elem-append, eq_iff, arith, Bool-cases, inl, inr, keep, keep-append,
}
use epiphany_executor.Value.{Value, null, Fields, truthy}
use epiphany_executor.Coverage.{
  Tracing, Matrix, row, add_requirements, add_tracings, plan_tracings, build_matrix,
  input_obligations, req_to_step_map, Orphan, orphan_of, orphans_of, CoverageReport,
  is_executor_caused, executor_caused_orphans, coverage_report,
}

-- The id of a step, once for each time that it traces the requirement.
abbrev pub step_entries : String → Value → List String → List Value
step_entries req sid [] = []
step_entries req sid (r ∷ reqs) =
    let rest = step_entries req sid reqs in if r == req then sid ∷ rest else rest

-- The ids of the steps that trace the requirement, in plan order.
abbrev pub tracing_steps : String → List Tracing → List Value
tracing_steps req [] = []
tracing_steps req (t ∷ ts) = step_entries req t.step_id t.requirements ++ tracing_steps req ts

row-insert :
    (r req : String) (vs : List Value) (m : Matrix)
    → row req (insert r vs m) ≡ (if r == req then vs else row req m)
row-insert r req vs m = ground (arith, lookup-insert r req vs m)

row-add_requirements :
    (req : String) (sid : Value) (reqs : List String) (m : Matrix)
    → row req (add_requirements sid reqs m) ≡ row req m ++ step_entries req sid reqs
unfolding add_requirements
row-add_requirements req sid [] m = sym (append-nil (row req m))
row-add_requirements req sid (r ∷ reqs) m =
    row-add_requirements req sid reqs (insert r (row r m ++ sid ∷ []) m)
    ∙ rw (row-insert r req (row r m ++ sid ∷ []) m) (elim (Bool-cases (r == req)) [
      | inl here ↦ rw here (
          ap (λ s. (row s m ++ sid ∷ []) ++ step_entries req sid reqs) ((eq_iff r req).0 here)
          ∙ append_assoc (row req m) (sid ∷ []) (step_entries req sid reqs))
      | inr other ↦ rw other refl
    ])

row-add_tracings :
    (req : String) (ts : List Tracing) (m : Matrix)
    → row req (add_tracings ts m) ≡ row req m ++ tracing_steps req ts
unfolding add_tracings
row-add_tracings req [] m = sym (append-nil (row req m))
row-add_tracings req (t ∷ ts) m =
    row-add_tracings req ts (add_requirements t.step_id t.requirements m)
    ∙ rw (row-add_requirements req t.step_id t.requirements m) (
        append_assoc (row req m) (step_entries req t.step_id t.requirements) (tracing_steps req ts))

-- Each row of the requirement matrix lists exactly the steps that trace the requirement, in plan
-- order and as often as they name it.
pub build_matrix-row :
    (plan : Fields) (ts : List Tracing) (req : String)
    → plan_tracings plan ≡ ok ts
    → (m : Matrix) × (build_matrix plan ≡ ok m) × (row req m ≡ tracing_steps req ts)
unfolding build_matrix
build_matrix-row plan ts req h = (add_tracings ts [], rw h refl, row-add_tracings req ts [])

abbrev pub orphan_names : List Orphan → List String
orphan_names [] = []
orphan_names (o ∷ os) = o.requirement ∷ orphan_names os

orphan_names-append :
    (xs ys : List Orphan) → orphan_names (xs ++ ys) ≡ orphan_names xs ++ orphan_names ys
orphan_names-append [] ys = refl
orphan_names-append (x ∷ xs) ys = ap (λ l. x.requirement ∷ l) (orphan_names-append xs ys)

module _ (m : Matrix) (req_map : Dict Value) where
  orphan_of-names :
      (req r : String)
      → elem req (orphan_names (orphan_of m req_map r)) ≡ (r == req && is_empty (row req m))
  unfolding orphan_of
  orphan_of-names req r = ground (arith, eq_iff r req)

  orphan_of-executor :
      (req r : String)
      → elem req (orphan_names (keep is_executor_caused (orphan_of m req_map r)))
        ≡ (r == req && is_empty (row req m) && truthy (or_else (lookup req req_map) null))
  unfolding orphan_of
  orphan_of-executor req r = ground (arith, eq_iff r req)

  orphans_of-names :
      (req : String) (reqs : List String)
      → elem req (orphan_names (orphans_of m req_map reqs))
        ≡ (elem req reqs && is_empty (row req m))
  unfolding orphans_of
  orphans_of-names req [] = refl
  orphans_of-names req (r ∷ reqs) =
      rw
        (
          orphan_names-append (orphan_of m req_map r) (orphans_of m req_map reqs),
          elem-append req (orphan_names (orphan_of m req_map r))
              (orphan_names (orphans_of m req_map reqs)),
        )
        (ground (arith, orphan_of-names req r, orphans_of-names req reqs))

  orphans_of-executor :
      (req : String) (reqs : List String)
      → elem req (orphan_names (keep is_executor_caused (orphans_of m req_map reqs)))
        ≡ (elem req reqs && is_empty (row req m) && truthy (or_else (lookup req req_map) null))
  unfolding orphans_of
  orphans_of-executor req [] = refl
  orphans_of-executor req (r ∷ reqs) =
      let one = keep is_executor_caused (orphan_of m req_map r) in
      let rest = keep is_executor_caused (orphans_of m req_map reqs) in
      rw
        (
          keep-append is_executor_caused (orphan_of m req_map r) (orphans_of m req_map reqs),
          orphan_names-append one rest,
          elem-append req (orphan_names one) (orphan_names rest),
        )
        (ground (arith, orphan_of-executor req r, orphans_of-executor req reqs))

-- The orphans of a report are exactly the obligations and mapped requirements that no step traces;
-- the executor-caused ones, which block the release, are exactly those that the plan maps to a
-- step. The three parts of the plan are those that the report could read.
pub coverage_report-orphans :
    (plan : Fields) (ts : List Tracing) (obligations : List String) (req_map : Dict Value)
    → plan_tracings plan ≡ ok ts
    → input_obligations plan ≡ ok obligations
    → req_to_step_map plan ≡ ok req_map
    → (r : CoverageReport) × (coverage_report plan ≡ ok r)
      × ((req : String)
          → (elem req (orphan_names r.orphans)
              ≡ (elem req (obligations ++ keys req_map) && is_empty (tracing_steps req ts)))
            × (elem req (orphan_names (executor_caused_orphans r)) ≡ (
                elem req (obligations ++ keys req_map)
                && is_empty (tracing_steps req ts)
                && truthy (or_else (lookup req req_map) null))))
unfolding coverage_report build_matrix executor_caused_orphans
coverage_report-orphans plan ts obligations req_map p q r =
    let m = add_tracings ts [] in
    let reqs = sorted (dedup (obligations ++ keys req_map)) in
    let candidate = λ (req : String).
      elem-sorted req (dedup (obligations ++ keys req_map))
      ∙ elem-dedup req (obligations ++ keys req_map) in
    (
      record { matrix = m; orphans = orphans_of m req_map reqs },
      rw (p, q, r) refl,
      λ req. (
        orphans_of-names m req_map req reqs ∙ rw (candidate req, row-add_tracings req ts []) refl,
        orphans_of-executor m req_map req reqs
            ∙ rw (candidate req, row-add_tracings req ts []) refl,
      ),
    )
