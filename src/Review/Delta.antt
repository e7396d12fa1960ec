-- ===== src/Review/Delta.antt =====
-- `compute_state_delta` and `propagate_forward_delta` of epiphany_executor/review.py.
pub mod Roundtrip
use epiphany_executor.Prelude.{
  String, Bool, true, false, not, Option, none, some, List, [], ◌∷◌, Dict, lookup, keys, elem,
  if◌then◌else◌,
}
use epiphany_executor.Scheduler.Dag.{Dag}

pub record StateDelta {ℓ} (V : Type ℓ) : Type ℓ where
  pub changed : Dict (V × V)
  pub added : Dict V
  pub removed : List String

-- `same` is Python's `==` on the values of a state.
module _ {ℓ} {V : Type ℓ} (same : V → V → Bool) where
  -- one key of the loop over `after`; `was` is its value before
  abbrev pub note : String → V → Option V → StateDelta V → StateDelta V
  note k v none d = record d { added = (k, v) ∷ d.added }
  note k v (some w) d = if same w v then d else record d { changed = (k, (w, v)) ∷ d.changed }

  unfoldable pub note_all : Dict V → Dict V → List String → StateDelta V
  note_all before [] gone = record { changed = []; added = []; removed = gone }
  note_all before ((k, v) ∷ after) gone = note k v (lookup k before) (note_all before after gone)

  -- the loop over `before`
  unfoldable pub missing_keys : Dict V → Dict V → List String
  missing_keys [] after = []
  missing_keys ((k, v) ∷ before) after =
      let rest = missing_keys before after in if elem k (keys after) then rest else k ∷ rest

  unfoldable pub compute_state_delta : Dict V → Dict V → StateDelta V
  unfolding note_all missing_keys
  compute_state_delta before after = note_all before after (missing_keys before after)

-- `{s for s, deps in dag.items() if changed_step in deps}`
unfoldable pub propagate_forward_delta : Dag → String → List String
propagate_forward_delta [] changed = []
propagate_forward_delta ((s, deps) ∷ dag) changed =
    let rest = propagate_forward_delta dag changed in if elem changed deps then s ∷ rest else rest
