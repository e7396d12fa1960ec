-- ===== src/Scheduler/Static.antt =====
-- The static effect class, the canonical write set and the count of irreversible outputs
-- (epiphany_executor/scheduler.py, and `count_irreversible_effects` of lifecycle.py).
use epiphany_executor.Prelude.{
  ℕ, ◌+◌, String, Bool, true, false, ◌||◌, Option, List, [], ◌∷◌, if◌then◌else◌, codes, lower,
  contains, any, map, is_empty, dedup, disjoint, or_else, ltb,
}
use epiphany_executor.Value.{Value, to_text}
use epiphany_executor.Contract.{Contract, footprint_of}

abbrev pub irreversible_markers : List String
irreversible_markers =
    "http://" ∷ "https://" ∷ "ssh://" ∷ "git@" ∷ "s3://" ∷ "gs://" ∷ "publish" ∷ "deploy"
    ∷ "release" ∷ "push" ∷ "send" ∷ "email" ∷ "post " ∷ "tweet" ∷ "upload" ∷ "notify" ∷ "webhook"
    ∷ "api/" ∷ "://" ∷ []

-- `any(m in low for m in markers)`
abbrev pub names_any : List String → List ℕ → Bool
names_any markers low = any (λ m. contains (codes m) low) markers

-- the test of one declared output, `low = str(out).lower()`
unfoldable pub is_irreversible_output : Value → Bool
unfolding to_text lower contains
is_irreversible_output out = names_any irreversible_markers (lower (codes (to_text out)))

pub data StaticClass : Type 0 where
  unknown externally_irreversible local_mutating : StaticClass

-- `c == "local-mutating"` and `c == "externally-irreversible"`
abbrev pub is_local : StaticClass → Bool
is_local local_mutating = true
is_local _ = false

abbrev pub is_external : StaticClass → Bool
is_external externally_irreversible = true
is_external _ = false

unfoldable pub static_effect_class : Contract → StaticClass
static_effect_class contract =
    let fp = footprint_of contract in
    if fp.conflicts_with_all || is_empty fp.declared_outputs
    then unknown
    else if any is_irreversible_output fp.declared_outputs
    then externally_irreversible
    else local_mutating

-- The loop that counts the declared outputs with a marker.
unfoldable pub count_outputs : List Value → ℕ
count_outputs [] = 0
count_outputs (out ∷ outs) =
    let n = count_outputs outs in if is_irreversible_output out then 1 + n else n

unfoldable pub count_irreversible_effects : Contract → ℕ
unfolding count_outputs
count_irreversible_effects contract =
    if is_external (static_effect_class contract)
    then count_outputs (footprint_of contract).declared_outputs
    else 0

unfoldable pub is_multi_irreversible : Contract → Bool
unfolding count_irreversible_effects
is_multi_irreversible contract = ltb 1 (count_irreversible_effects contract)

-- The file system: `os.path.normcase(os.path.realpath(os.path.expanduser(s)))`, with `none` for
-- the OSError that the call may raise.
module _ (canonical : String → Option String) where
  unfoldable pub canonical_output : Value → String
  canonical_output o =
      let s = to_text o in if contains (codes "/") (codes s) then or_else (canonical s) s else s

  unfoldable pub canonical_outputs : Contract → List String
  unfolding canonical_output
  canonical_outputs contract = dedup (map canonical_output (footprint_of contract).declared_outputs)

  -- Both steps declare outputs, and the write sets share none.
  unfoldable pub provably_disjoint : Contract → Contract → Bool
  provably_disjoint a b =
      let oa = canonical_outputs a in
      let ob = canonical_outputs b in if is_empty oa || is_empty ob then false else disjoint oa ob
