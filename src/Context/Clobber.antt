-- ===== src/Context/Clobber.antt =====
-- The harness and forge accommodation of epiphany_executor/context_builder.py: the pack, the context
-- lines and the guard against outputs that overwrite live directories.
use Prim.Native.String.{◌++◌ as ◌+++◌}
use epiphany_executor.Prelude.{
  String, Bool, false, not, ◌&&◌, ◌||◌, Option, none, some, List, [], ◌∷◌, ◌++◌, Result, ok, err,
  ◌>>=◌, type_error, any, if◌then◌else◌, ◌==◌, codes, starts_with,
}
use epiphany_executor.Value.{
  Value, null, str, obj, Fields, get, truthy, to_text, dict_or_empty, iterate, iterate_or_empty,
}

-- The functions of `os.path` that the file calls.
pub record OsPath : Type 0 where
  pub expanduser : String → String
  pub normpath : String → String
  pub isabs : String → Bool
  pub join : String → String → String

-- `plan_meta.get("harness_forge") or {}`; a truthy value that is no dict fails at its first `get`,
-- which comes right after. An empty `plan_meta` stands for a missing one too.
unfoldable pub harness_forge_pack : Fields → Result (Option Fields)
harness_forge_pack plan_meta = elim (get "target_profile" plan_meta) [
  | str profile ↦
      if profile == "harness-forge"
      then (do pack ← dict_or_empty (get "harness_forge" plan_meta); ok (some pack))
      else ok none
  | _ ↦ ok none
]

-- `", ".join(map(str, values))`
unfoldable pub join_texts : List Value → String
unfolding to_text
join_texts [] = ""
join_texts (v ∷ []) = to_text v
join_texts (v ∷ w ∷ vs) = to_text v +++ ", " +++ join_texts (w ∷ vs)

-- `step.get("target_subsystem") if isinstance(step, dict) else None`
abbrev pub subsystem_of : Value → Value
subsystem_of (obj step) = get "target_subsystem" step
subsystem_of v = null

abbrev primitives_line : Value → Result (List String)
primitives_line v =
    if truthy v
    then (do names ← iterate v; ok (("harness-primitives in scope: " +++ join_texts names) ∷ []))
    else ok []

-- `if step:`, then the focus on a subsystem; a truthy step without one adds no line
abbrev focus_line : Value → List String
focus_line step =
    let sub = subsystem_of step in
    if truthy step && truthy sub then ("target-subsystem focus: " +++ to_text sub) ∷ [] else []

unfoldable pub context_lines : Fields → Value → Result (List String)
unfolding join_texts to_text
context_lines pack step = do
  primitives ← primitives_line (get "harness_primitives" pack)
  ok (
      (if truthy (get "provider_hint" pack)
        then ("provider-hint: dispatch heavy harness/forge runs via --provider "
            +++ to_text (get "provider_hint" pack)
            +++ " (claude-cli times out on large graphs).")
          ∷ []
        else [])
      ++ ((if truthy (get "harness_first" pack)
            then "harness-first: a harness primitive must land+tested BEFORE the forge step that exploits it."
              ∷ []
            else [])
          ++ (primitives
              ++ ("harness exit-code conventions: exit-7 = static gate fail; exit-11 = inline reasoning pause."
                  ∷ focus_line step))))

abbrev pub live_dir_roots : List String
live_dir_roots = "~/.claude/skills" ∷ "~/projects/goatcs-harness" ∷ []

abbrev pub live_family_prefixes : List String
live_family_prefixes = "~/projects/epiphany-" ∷ []

module _ (os : OsPath) where
  open os use {expanduser, normpath, isabs, join}

  unfoldable pub resolve_output : String → String
  resolve_output path =
      let p = expanduser path in
      normpath (if isabs p then p else normpath (join (expanduser "~") p))

  -- `resolved == root or resolved.startswith(root + os.sep)`
  abbrev pub under : String → String → Bool
  under resolved root = resolved == root || starts_with (codes resolved) (codes (root +++ "/"))

  -- the two loops over the live roots
  unfoldable pub is_live_resolved : String → Bool
  unfolding starts_with
  is_live_resolved resolved =
      any (λ pre. under resolved (normpath (expanduser pre))) live_dir_roots
      || any (λ pre. starts_with (codes resolved) (codes (normpath (expanduser pre))))
          live_family_prefixes

  -- `if out_dir:`, where a truthy value that is no text has no path
  unfoldable pub is_live_path : String → Value → Result Bool
  unfolding resolve_output is_live_resolved
  is_live_path path (str out_dir) =
      let resolved = resolve_output path in
      if not (out_dir == "") && under resolved (resolve_output out_dir)
      then ok false
      else ok (is_live_resolved resolved)
  is_live_path path out_dir =
      if truthy out_dir then err type_error else ok (is_live_resolved (resolve_output path))

  -- `[o for o in outs if isinstance(o, str) and _is_live_path(o, out_dir)]`
  unfoldable pub live_outputs : Value → List Value → Result (List String)
  unfolding is_live_path
  live_outputs out_dir [] = ok []
  live_outputs out_dir (str o ∷ outs) = do
    live ← is_live_path o out_dir
    rest ← live_outputs out_dir outs
    ok (if live then o ∷ rest else rest)
  live_outputs out_dir (v ∷ outs) = live_outputs out_dir outs

  -- the case of a self-modifying plan
  abbrev outputs_at_risk : Fields → Value → Result (List String)
  outputs_at_risk pack (obj step) = do
    outs ← iterate_or_empty (get "outputs" step)
    live_outputs (get "out_dir" pack) outs
  outputs_at_risk pack v = ok []

  unfoldable pub detect_self_clobber : Value → Fields → Result (List String)
  unfolding live_outputs
  detect_self_clobber step pack =
      if truthy (get "self_modifying" pack) then outputs_at_risk pack step else ok []
