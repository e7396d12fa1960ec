-- ===== src/Scheduler/Waves/Plan.antt =====
-- The waves of `schedule_waves` in epiphany_executor/scheduler.py against the layers.
use epiphany_executor.Prelude.{
  ℕ, suc, ◌+◌, ◌<◌, String, Bool, true, false, ◌≡◌, refl, sym, ◌∙◌, ap, Option, some, List, [], ◌∷◌,
  ok, >>=-eq-ok, ok_inj, Dict, lookup, keys, Distinct, if◌then◌else◌, elem, count, count-append,
  count-pos-elem, elem-keys, elem-eq-true-count, count-zero_of_absent, flatten, map, or_else, arith,
  All, eq_refl, elem-append,
}
use epiphany_executor.Value.{Value}
use epiphany_executor.Contract.{Contract}
use epiphany_executor.Scheduler.Dag.{Dag, build_dag}
use epiphany_executor.Scheduler.Dag.Edges.{NamesStep, SomeDep, build_dag_sound}
use epiphany_executor.Scheduler.Cycle.Acyclic.{Ranked}
use epiphany_executor.Scheduler.Layers.{topo_layers}
use epiphany_executor.Scheduler.Layers.Order.{layer_index, topo_layers_sound}
use epiphany_executor.Scheduler.Layers.Total.{topo_layers_total}
use epiphany_executor.Scheduler.Cohort.{FanoutBudget, default_budget, partition_cohort}
use epiphany_executor.Scheduler.Cohort.Safe.{IsCohort, partition_cohort_safe}
use epiphany_executor.Scheduler.Cohort.Total.{IsKnown, IsKnown-key, partition_cohort_total}
use epiphany_executor.Scheduler.Waves.{Wave, all_steps, make_wave, make_waves, schedule_waves}

-- The position of the first wave that runs a step.
abbrev pub wave_index : String → List Wave → ℕ
wave_index s [] = 0
wave_index s (w ∷ ws) = if elem s (all_steps w) then 0 else suc (wave_index s ws)

module _ (canonical : String → Option String) (contracts : Dict Contract) (budget : FanoutBudget)
    (serial : Bool) where
  -- How a wave runs its steps: alone in a serial plan, else with a safe cohort.
  abbrev pub RunsSafely : Wave → Type 0
  RunsSafely w = if serial then w.parallel ≡ [] else IsCohort canonical contracts budget w.parallel

  -- A wave stands for its layer.
  record FromLayer (layer : List String) (w : Wave) : Type 0 where
    counted : (s : String) → count s (all_steps w) ≡ count s layer
    safely : RunsSafely w

  make_wave-FromLayer :
      (serial' : Bool) (i : ℕ) (layer : List String) (w : Wave)
      → serial ≡ serial'
      → make_wave canonical contracts budget serial' i layer ≡ ok w
      → FromLayer layer w
  unfolding make_wave
  make_wave-FromLayer true i layer w e h =
      rw (sym (ok_inj h)) (record { counted = λ s. refl; safely = rw e refl })
  make_wave-FromLayer false i layer w e h =
      let ((par, ser), p, last) =
        >>=-eq-ok (partition_cohort canonical contracts layer budget) _ h in
      let (counts, cohort, _) = partition_cohort_safe canonical contracts budget layer par ser p in
      rw (sym (ok_inj last))
        (record { counted = λ s. count-append s par ser ∙ counts s; safely = rw e cohort })

  -- The waves stand for the layers, in order.
  abbrev FromLayers : List (List String) → List Wave → Type 0
  FromLayers [] [] = Unit
  FromLayers [] (w ∷ ws) = ⊥
  FromLayers (l ∷ ls) [] = ⊥
  FromLayers (l ∷ ls) (w ∷ ws) = FromLayer l w × FromLayers ls ws

  make_waves-FromLayers :
      (i : ℕ) (layers : List (List String)) (waves : List Wave)
      → make_waves canonical contracts budget serial i layers ≡ ok waves
      → FromLayers layers waves
  unfolding make_waves
  make_waves-FromLayers i [] waves h = rw (sym (ok_inj h)) tt
  make_waves-FromLayers i (layer ∷ layers) waves h =
      let (w, e, h1) = >>=-eq-ok (make_wave canonical contracts budget serial i layer) _ h in
      let (ws, f, h2) =
        >>=-eq-ok (make_waves canonical contracts budget serial (i + 1) layers) _ h1 in
      rw (sym (ok_inj h2))
        (make_wave-FromLayer serial i layer w refl e, make_waves-FromLayers (i + 1) layers ws f)

  FromLayers-count :
      (s : String) (layers : List (List String)) (waves : List Wave)
      → FromLayers layers waves
      → count s (flatten (map all_steps waves)) ≡ count s (flatten layers)
  FromLayers-count s [] [] f = refl
  FromLayers-count s [] (w ∷ ws) f = absurd f
  FromLayers-count s (l ∷ ls) [] f = absurd f
  FromLayers-count s (l ∷ ls) (w ∷ ws) f = omega (
    arith,
    count-append s (all_steps w) (flatten (map all_steps ws)),
    count-append s l (flatten ls),
    f.0.counted s,
    FromLayers-count s ls ws f.1,
  )

  elem-of-count :
      (s : String) (xs ys : List String) → count s xs ≡ count s ys → elem s xs ≡ elem s ys
  elem-of-count s xs ys e = ground (
    arith,
    elem-eq-true-count s xs,
    elem-eq-true-count s ys,
    count-zero_of_absent s xs,
    count-zero_of_absent s ys,
  )

  FromLayers-index :
      (s : String) (layers : List (List String)) (waves : List Wave)
      → FromLayers layers waves
      → wave_index s waves ≡ layer_index s layers
  FromLayers-index s [] [] f = refl
  FromLayers-index s [] (w ∷ ws) f = absurd f
  FromLayers-index s (l ∷ ls) [] f = absurd f
  FromLayers-index s (l ∷ ls) (w ∷ ws) f =
      rw (elem-of-count s (all_steps w) l (f.0.counted s), FromLayers-index s ls ws f.1) refl

  FromLayers-safely :
      (layers : List (List String)) (waves : List Wave)
      → FromLayers layers waves
      → All RunsSafely waves
  FromLayers-safely [] [] f = tt
  FromLayers-safely [] (w ∷ ws) f = absurd f
  FromLayers-safely (l ∷ ls) [] f = absurd f
  FromLayers-safely (l ∷ ls) (w ∷ ws) f = (f.0.safely, FromLayers-safely ls ws f.1)

  make_wave_total :
      (serial' : Bool) (i : ℕ) (layer : List String)
      → All (IsKnown canonical contracts) layer
      → (w : Wave) × (make_wave canonical contracts budget serial' i layer ≡ ok w)
  unfolding make_wave
  make_wave_total true i layer k = (_, refl)
  make_wave_total false i layer k =
      let ((par, ser), e) = partition_cohort_total canonical contracts budget layer k in
      (record { index = i; parallel = par; serial = ser }, rw e refl)

  make_waves_total :
      (i : ℕ) (layers : List (List String))
      → All (All (IsKnown canonical contracts)) layers
      → (ws : List Wave) × (make_waves canonical contracts budget serial i layers ≡ ok ws)
  unfolding make_waves
  make_waves_total i [] k = ([], refl)
  make_waves_total i (layer ∷ layers) k =
      let (w, e) = make_wave_total serial i layer k.0 in
      let (ws, f) = make_waves_total (i + 1) layers k.1 in (w ∷ ws, rw (e, f) refl)

  All-IsKnown :
      (xs : List String)
      → ((s : String) → elem s xs ≡ true → elem s (keys contracts) ≡ true)
      → All (IsKnown canonical contracts) xs
  All-IsKnown [] h = tt
  All-IsKnown (x ∷ xs) h = (
    IsKnown-key canonical contracts x (h x (ground (arith, eq_refl x))),
    All-IsKnown xs (λ s m. h s (ground arith)),
  )

  All-layers-IsKnown :
      (layers : List (List String))
      → ((s : String) → elem s (flatten layers) ≡ true → elem s (keys contracts) ≡ true)
      → All (All (IsKnown canonical contracts)) layers
  All-layers-IsKnown [] h = tt
  All-layers-IsKnown (l ∷ ls) h = (
    All-IsKnown l (λ s m. h s (elem-append s l (flatten ls) ∙ ground arith)),
    All-layers-IsKnown ls (λ s m. h s (elem-append s l (flatten ls) ∙ ground arith)),
  )

module _ (canonical : String → Option String) where
  -- The three parts of what a schedule is, together.
  pub schedule_waves_sound :
      (contracts : Dict Contract) (build_order : List Value) (budget : Option FanoutBudget)
      (serial : Bool) (waves : List Wave)
      → Distinct contracts
      → schedule_waves canonical contracts build_order budget serial ≡ ok waves
      → ((s : String) → count s (flatten (map all_steps waves)) ≡ count s (keys contracts))
        × ((s p : String) (c : Contract)
            → lookup s contracts ≡ some c
            → SomeDep (NamesStep (keys contracts) s p) c.dependencies
            → wave_index p waves < wave_index s waves)
        × All (RunsSafely canonical contracts (or_else budget default_budget) serial) waves
  unfolding schedule_waves
  schedule_waves_sound contracts build_order budget serial waves d h =
      let (dag, e, h1) = >>=-eq-ok (build_dag contracts build_order) _ h in
      let (layers, f, h2) = >>=-eq-ok (topo_layers dag) _ h1 in
      let (same, dd, _, complete) = build_dag_sound contracts build_order dag d e in
      let (counts, before) = topo_layers_sound dag layers dd f in
      let b = or_else budget default_budget in
      let from = make_waves-FromLayers canonical contracts b serial 0 layers waves h2 in
      (
        λ s.
            FromLayers-count canonical contracts b serial s layers waves from
            ∙ counts s
            ∙ ap (count s) same,
        λ s p c found names.
            let m = elem-keys s contracts ∙ rw found refl in
            let lt = before s p (ap (elem s) same ∙ m) (complete s p c found names) in
            omega (
              arith,
              lt,
              FromLayers-index canonical contracts b serial p layers waves from,
              FromLayers-index canonical contracts b serial s layers waves from,
            ),
        FromLayers-safely canonical contracts b serial layers waves from,
      )

  -- A plan of contracts with distinct ids whose graph is built, and on whose graph some rank falls
  -- along every edge (so that it has no cycle), is scheduled: no error is raised.
  pub schedule_waves_total :
      (rank : String → ℕ) (contracts : Dict Contract) (build_order : List Value)
      (budget : Option FanoutBudget) (serial : Bool) (dag : Dag)
      → Distinct contracts
      → build_dag contracts build_order ≡ ok dag
      → Ranked rank dag
      → (waves : List Wave) × (schedule_waves canonical contracts build_order budget serial
          ≡ ok waves)
  unfolding schedule_waves
  schedule_waves_total rank contracts build_order budget serial dag d e ranked =
      let (same, dd, closed, _) = build_dag_sound contracts build_order dag d e in
      let (layers, f) =
        topo_layers_total rank dag dd (λ s p m. ap (elem p) same ∙ closed s p m) ranked in
      let (counts, _) = topo_layers_sound dag layers dd f in
      let b = or_else budget default_budget in
      let (waves, g) = make_waves_total canonical contracts b serial 0 layers (
        All-layers-IsKnown canonical contracts b serial layers (λ s m.
          count-pos-elem s (keys contracts) (
            omega
              (arith, elem-eq-true-count s (flatten layers) m, counts s, ap (count s) same)))) in
      (waves, rw (e, f) g)
