-- ===== src/Effector/InMemory.antt =====
-- `_InMemoryWorktrees` of epiphany_executor/effector.py, the worktree manager that needs no git.
use Prim.Native.String.{◌++◌ as ◌+++◌}
use epiphany_executor.Prelude.{String, List, [], ◌∷◌, ◌++◌}

pub record InMemoryWorktrees : Type 0 where
  pub created : List String
  pub merged : List String
  pub discarded : List String

abbrev pub no_worktrees : InMemoryWorktrees
no_worktrees = record { created = []; merged = []; discarded = [] }

abbrev pub path_of : String → String
path_of step_id = "<worktree:" +++ step_id +++ ">"

unfoldable pub create : String → InMemoryWorktrees → String × InMemoryWorktrees
create step_id w = (path_of step_id, record w { created = w.created ++ path_of step_id ∷ [] })

unfoldable pub merge : String → InMemoryWorktrees → InMemoryWorktrees
merge worktree w = record w { merged = w.merged ++ worktree ∷ [] }

unfoldable pub discard : String → InMemoryWorktrees → InMemoryWorktrees
discard worktree w = record w { discarded = w.discarded ++ worktree ∷ [] }
