-- ===== src/Validate/Scheduled.antt =====
-- The schedule of a tuning plan in epiphany_executor/validate.py, and the number of its steps.
use epiphany_executor.Prelude.{
  String, Bool, true, false, not, ◌≡◌, refl, Option, none, some, Result, ok, err, ◌>>=◌, List, [],
  ◌∷◌, Dict, Distinct, insert, insert-Distinct, is_empty, length, flatten, map, arith,
}
use epiphany_executor.Value.{Value, Fields, get, iterate_or_empty}
use epiphany_executor.Contract.{Contract}
use epiphany_executor.Scheduler.Dag.{Dag, build_dag}
use epiphany_executor.Scheduler.Waves.{Wave, all_steps, schedule_waves}
use epiphany_executor.Scheduler.Waves.Whole.{schedule_waves-length}
use epiphany_executor.Corpus.{CorpusPlan}
use epiphany_executor.Validate.{GraphSpec, extract_contracts, covers, try_schedule}

abbrev pub is_scheduled : Result Bool → Bool
is_scheduled (ok b) = b
is_scheduled (err e) = false

-- The schedule came back, and has a wave.
abbrev pub has_wave : Result (List Wave) → Bool
has_wave (ok waves) = not (is_empty waves)
has_wave (err e) = false

abbrev pub has_raised : {A : Type 0} → Result A → Bool
has_raised (ok b) = false
has_raised (err e) = true

-- The waves of the contracts of the plan, with the plan's own build order.
abbrev pub scheduled_waves : (String → Option String) → GraphSpec → Result (List Wave)
scheduled_waves canonical spec = do
  edges ← build_dag (extract_contracts spec.nodes []) []
  order ← iterate_or_empty (get "build_order" spec.raw)
  schedule_waves canonical (extract_contracts spec.nodes []) order none false

extract_contracts-Distinct :
    (nodes : Dict (Option Contract)) (out : Dict Contract)
    → Distinct out
    → Distinct (extract_contracts nodes out)
unfolding extract_contracts
extract_contracts-Distinct [] out h = h
extract_contracts-Distinct ((nid, none) ∷ nodes) out h = extract_contracts-Distinct nodes out h
extract_contracts-Distinct ((nid, some sc) ∷ nodes) out h =
    extract_contracts-Distinct nodes (insert nid sc out) (insert-Distinct nid sc out h)

covers-scheduled :
    (waves : List Wave) (contracts : Dict Contract)
    → length (flatten (map all_steps waves)) ≡ length contracts
    → covers waves contracts ≡ not (is_empty waves)
covers-scheduled [] contracts h = ground arith
covers-scheduled (w ∷ waves) contracts h = ground (arith, h)

module _ (canonical : String → Option String)
    (load_plan : CorpusPlan → Result (Fields × GraphSpec)) where
  -- The count test of the source always holds: the schedule has every contract once.
  pub try_schedule-waves :
      (spec : GraphSpec)
      → (is_scheduled (try_schedule canonical load_plan spec)
          ≡ has_wave (scheduled_waves canonical spec))
        × (has_raised (try_schedule canonical load_plan spec)
            ≡ has_raised (scheduled_waves canonical spec))
  unfolding try_schedule
  try_schedule-waves spec = by_edges (build_dag (extract_contracts spec.nodes []) [])
    where
      contracts : Dict Contract
      contracts = extract_contracts spec.nodes []

      finish : List Wave → Result Bool
      finish waves = ok (covers waves contracts)

      by_waves :
          (order : List Value) (r : Result (List Wave))
          → schedule_waves canonical contracts order none false ≡ r
          → (is_scheduled (r >>= finish) ≡ has_wave r) × (has_raised (r >>= finish) ≡ has_raised r)
      by_waves order (err e) h = (refl, refl)
      by_waves order (ok waves) h =
          let distinct = extract_contracts-Distinct spec.nodes [] tt in
          (
            covers-scheduled waves contracts
                (schedule_waves-length canonical contracts order none false waves distinct h),
            refl,
          )

      by_order :
          (o : Result (List Value))
          → (is_scheduled
                (o >>= λ order. schedule_waves canonical contracts order none false >>= finish)
              ≡ has_wave (o >>= λ order. schedule_waves canonical contracts order none false))
            × (has_raised
                  (o >>= λ order. schedule_waves canonical contracts order none false >>= finish)
                ≡ has_raised (o >>= λ order. schedule_waves canonical contracts order none false))
      by_order (err e) = (refl, refl)
      by_order (ok order) =
          by_waves order (schedule_waves canonical contracts order none false) refl

      order : Result (List Value)
      order = iterate_or_empty (get "build_order" spec.raw)

      by_edges :
          (r : Result Dag)
          → (is_scheduled (
                r >>= λ _.
                order >>= λ o. schedule_waves canonical contracts o none false >>= finish)
              ≡ has_wave
                  (r >>= λ _. order >>= λ o. schedule_waves canonical contracts o none false))
            × (has_raised (
                  r >>= λ _.
                  order >>= λ o. schedule_waves canonical contracts o none false >>= finish)
                ≡ has_raised
                    (r >>= λ _. order >>= λ o. schedule_waves canonical contracts o none false))
      by_edges (err e) = (refl, refl)
      by_edges (ok edges) = by_order order
