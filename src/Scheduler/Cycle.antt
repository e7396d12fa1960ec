-- ===== src/Scheduler/Cycle.antt =====
-- `detect_cycle` of epiphany_executor/scheduler.py: depth-first search with three colours.
pub mod Acyclic
pub mod Enough
pub mod Found
use epiphany_executor.Prelude.{
  ℕ, zero, suc, String, Bool, true, false, Option, none, some, List, [], ◌∷◌, ◌++◌, Dict, insert,
  lookup, keys, if◌then◌else◌, ◌==◌, or_else, length, map,
}
use epiphany_executor.Scheduler.Dag.{Dag, prereqs}

pub data Color : Type 0 where
  white gray black : Color

pub record Search : Type 0 where
  pub color : Dict Color
  pub stack : List String

-- `color.get(m, WHITE)`
abbrev pub color_of : Search → String → Color
color_of s m = or_else (lookup m s.color) white

-- `stack[stack.index(m):]`
unfoldable pub from_first : String → List String → List String
from_first m [] = []
from_first m (x ∷ xs) = if x == m then x ∷ xs else from_first m xs

-- `stack.pop()`
unfoldable pub pop_last : List String → List String
pop_last [] = []
pop_last (x ∷ []) = []
pop_last (x ∷ y ∷ xs) = x ∷ pop_last (y ∷ xs)

-- A path and the state behind it; `none` is fuel that ran out.
abbrev pub Outcome : Type 0
Outcome = Option (List String × Search)

-- `if r: return r`, and on to the rest of the loop otherwise
abbrev pub or_next : Outcome → (Search → Outcome) → Outcome
or_next none next = none
or_next (some ([], s)) next = next s
or_next (some (x ∷ r, s)) next = some (x ∷ r, s)

-- the loop of `dfs` over the prerequisites, with the recursive call as an argument
unfoldable pub visit_prereqs : (String → Search → Outcome) → List String → Search → Outcome
unfolding from_first
visit_prereqs dfs [] s = some ([], s)
visit_prereqs dfs (m ∷ ms) s = elim (color_of s m) [
  | gray ↦ some (from_first m s.stack ++ m ∷ [], s)
  | white ↦ or_next (dfs m s) (visit_prereqs dfs ms)
  | black ↦ visit_prereqs dfs ms s
]

-- `color[n] = GRAY; stack.append(n)`
abbrev pub enter : String → Search → Search
enter n s = record { color = insert n gray s.color; stack = s.stack ++ n ∷ [] }

-- `color[n] = BLACK; stack.pop(); return []`
abbrev pub leave : String → Search → Outcome
leave n s = some ([], record { color = insert n black s.color; stack = pop_last s.stack })

unfoldable pub dfs : Dag → ℕ → String → Search → Outcome
unfolding visit_prereqs pop_last
dfs dag zero n s = none
dfs dag (suc fuel) n s =
    or_next (visit_prereqs (dfs dag fuel) (prereqs dag n) (enter n s)) (leave n)

-- the outer loop, `for n in dag: if color[n] == WHITE: ...`
unfoldable pub visit_all : Dag → ℕ → List String → Search → Outcome
unfolding dfs
visit_all dag fuel [] s = some ([], s)
visit_all dag fuel (n ∷ ns) s = elim (color_of s n) [
  | white ↦ or_next (dfs dag fuel n s) (visit_all dag fuel ns)
  | gray ↦ visit_all dag fuel ns s
  | black ↦ visit_all dag fuel ns s
]

-- `{n: WHITE for n in dag}`
unfoldable pub all_white : Dag → Dict Color
all_white [] = []
all_white ((n, ps) ∷ dag) = (n, white) ∷ all_white dag

-- every name of the graph, as a key or as a prerequisite
unfoldable pub names : Dag → List String
names [] = []
names ((n, ps) ∷ dag) = n ∷ ps ++ names dag

-- One level of fuel for each name is enough: each nested call enters a node that is still white.
unfoldable pub search_cycle : Dag → Outcome
unfolding visit_all all_white names
search_cycle dag =
    visit_all dag (suc (length (names dag))) (keys dag)
      (record { color = all_white dag; stack = [] })
