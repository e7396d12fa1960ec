-- ===== src/Scheduler/Layers.antt =====
-- `topo_layers` of epiphany_executor/scheduler.py: Kahn layering.
pub mod Rounds
pub mod Order
pub mod Total
use epiphany_executor.Prelude.{
  ℕ, zero, suc, String, Bool, true, false, not, Option, none, some, List, [], ◌∷◌, ◌++◌, Result, ok,
  err, ◌>>=◌, scheduler_error, out_of_fuel, if◌then◌else◌, elem, length, sorted, subset, is_empty,
}
use epiphany_executor.Scheduler.Dag.{Dag}
use epiphany_executor.Scheduler.Cycle.{Outcome, Search, search_cycle}

-- `{n for n, p in remaining.items() if p <= done}`
unfoldable pub ready_ids : List String → Dag → List String
ready_ids done [] = []
ready_ids done ((n, ps) ∷ dag) =
    let rest = ready_ids done dag in if subset ps done then n ∷ rest else rest

-- `for n in ready: remaining.pop(n)`
unfoldable pub remove_ids : List String → Dag → Dag
remove_ids ready [] = []
remove_ids ready ((n, ps) ∷ dag) =
    let rest = remove_ids ready dag in if elem n ready then rest else (n, ps) ∷ rest

-- the `while remaining` loop, with fuel
unfoldable pub layers_from : ℕ → List String → Dag → Result (List (List String))
unfolding ready_ids remove_ids
layers_from fuel done [] = ok []
layers_from zero done (x ∷ remaining) = err out_of_fuel
layers_from (suc fuel) done (x ∷ remaining) =
    let ready = sorted (ready_ids done (x ∷ remaining)) in
    let later = layers_from fuel (done ++ ready) (remove_ids ready (x ∷ remaining)) in
    if is_empty ready then err scheduler_error else do layers ← later; ok (ready ∷ layers)

-- `if cyc: raise SchedulerError(...)`
unfoldable pub reject_cycle : Outcome → Result (Unit {0})
reject_cycle none = err out_of_fuel
reject_cycle (some ([], s)) = ok tt
reject_cycle (some (x ∷ r, s)) = err scheduler_error

unfoldable pub topo_layers : Dag → Result (List (List String))
unfolding search_cycle layers_from reject_cycle
topo_layers dag = do _ ← reject_cycle (search_cycle dag); layers_from (length dag) [] dag
