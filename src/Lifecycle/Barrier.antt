-- ===== src/Lifecycle/Barrier.antt =====
-- `BarrierCommit` of epiphany_executor/lifecycle.py: the order in which a wave's cursors are committed.
use epiphany_executor.Prelude.{
  ℕ, ◌+◌, String, Bool, List, [], ◌∷◌, Dict, insert, lookup, ◌==◌, or_else, length, sort_by, le_key,
}
use epiphany_executor.Lifecycle.Store.{RecoveryCursor}

-- `{sid: i for i, sid in enumerate(build_order)}`, from the index `i` on
pub ranks_from : ℕ → List String → Dict ℕ → Dict ℕ
ranks_from i [] d = d
ranks_from i (sid ∷ rest) d = ranks_from (i + 1) rest (insert sid i d)

-- the key of the sort: `rank.get(c.step_id, len(rank))`
pub rank_of : List String → RecoveryCursor → ℕ
unfolding ranks_from
rank_of build_order c =
    let rank = ranks_from 0 build_order [] in or_else (lookup c.step_id rank) (length rank)

-- `BarrierCommit.order_cursors`
pub order_cursors : List String → List RecoveryCursor → List RecoveryCursor
order_cursors build_order cursors = sort_by (le_key (rank_of build_order)) cursors

abbrev pub of_step : String → RecoveryCursor → Bool
of_step sid c = c.step_id == sid
