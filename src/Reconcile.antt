-- ===== src/Reconcile.antt =====
-- tools/reconcile_forge.py: the reconcile of a staging directory into the live tree. A tree maps the
-- relative paths of its files to their contents; no file stands where the other tree has a
-- directory. The staged files come in the order of `os.walk`, each once.
pub mod Preserved
use epiphany_executor.Prelude.{
  ℕ, String, Bool, true, false, not, ◌&&◌, Option, none, some, List, [], ◌∷◌, Result, ok, err,
  ◌>>=◌, attribute_error, Dict, insert, lookup, keys, elem, sorted, length, codes, starts_with,
  if◌then◌else◌, is_some,
}
use epiphany_executor.Value.{
  Value, null, bool, nat, negative, float, str, arr, obj, Fields, end, field, get, truthy,
  dict_or_empty,
}
use epiphany_executor.Coverage.{text_of}

abbrev pub Tree : Type 0
Tree = Dict String

-- `n.get("module_file")` for the values of the nodes, those that are there
unfoldable pub module_files : Fields → Result (List String)
module_files end = ok []
module_files (field k (obj n) fs) =
    let rest = module_files fs in
    if truthy (get "module_file" n)
    then (do name ← text_of (get "module_file" n); names ← rest; ok (name ∷ names))
    else rest
module_files (field k v fs) = err attribute_error

-- The document of the live `graph.json`, `none` if the file is missing or cannot be read.
unfoldable pub live_module_refs : Option Value → Result (Option (List String))
unfolding module_files
live_module_refs none = ok none
live_module_refs (some (obj g)) = do
  nodes ← dict_or_empty (get "nodes" g)
  names ← module_files nodes
  ok (some names)
live_module_refs (some v) = err attribute_error

-- a staged module that the live graph does not name
unfoldable pub is_orphan : Option (List String) → String → Bool
unfolding starts_with
is_orphan none rel = false
is_orphan (some refs) rel = starts_with (codes rel) (codes "modules/") && not (elem rel refs)

-- the lists of the function and the live tree
pub record Reconciled : Type 0 where
  pub live : Tree
  pub added : List String
  pub preserved : List String
  pub skipped_orphans : List String

-- the body of the loop over the staged files
unfoldable pub reconcile_file : Option (List String) → String → String → Reconciled → Reconciled
unfolding is_orphan
reconcile_file refs rel content r =
    if is_some (lookup rel r.live)
    then record r { preserved = rel ∷ r.preserved }
    else if is_orphan refs rel
    then record r { skipped_orphans = rel ∷ r.skipped_orphans }
    else record r { live = insert rel content r.live; added = rel ∷ r.added }

unfoldable pub reconcile_files : Option (List String) → Tree → Reconciled → Reconciled
unfolding reconcile_file
reconcile_files refs [] r = r
reconcile_files refs ((rel, content) ∷ staged) r =
    reconcile_files refs staged (reconcile_file refs rel content r)

pub record Manifest : Type 0 where
  pub added : List String
  pub preserved : List String
  pub skipped_orphans : List String
  pub n_added : ℕ
  pub n_preserved : ℕ
  pub n_skipped_orphans : ℕ

-- the live tree and the returned manifest; the lists are sorted, so that the order of their
-- appends does not matter
unfoldable pub reconcile : Tree → Tree → Option Value → Result (Tree × Manifest)
unfolding live_module_refs reconcile_files
reconcile staging live graph = do
  refs ← live_module_refs graph
  let r =
      reconcile_files refs staging
        (record { live = live; added = []; preserved = []; skipped_orphans = [] })
  let manifest : Manifest = record {
    added = sorted r.added;
    preserved = sorted r.preserved;
    skipped_orphans = sorted r.skipped_orphans;
    n_added = length r.added;
    n_preserved = length r.preserved;
    n_skipped_orphans = length r.skipped_orphans;
  }
  ok (r.live, manifest)
