-- ===== src/Corpus.antt =====
-- epiphany_executor/corpus.py: the tuning and the held-out plans. What the two directories hold is a
-- parameter, the runs and the plans that `enumerate_json_runs` and `enumerate_md_plans` list.
pub mod Partition
use epiphany_executor.Prelude.{
  ℕ, String, Bool, true, false, not, ◌&&◌, List, [], ◌∷◌, ◌++◌, map, Result, ok, ◌>>=◌, elem, keep,
  disjoint, length, if◌then◌else◌, ◌==◌,
}
use epiphany_executor.Value.{
  Value, null, bool, nat, negative, float, str, arr, obj, Fields, has, get, truthy, dict_or_empty,
}

pub data Kind : Type 0 where
  json md : Kind

pub data Role : Type 0 where
  tuning_role held_out_role : Role

pub data Disposition : Type 0 where
  end_to_end correct_halt : Disposition

pub record CorpusPlan : Type 0 where
  pub name : String
  pub path : String
  pub kind : Kind
  pub role : Role
  pub disposition : Disposition
  pub gate_verdict : Value

unfoldable pub is_execution_plan : Value → Bool
is_execution_plan (obj d) = has "steps" d && (has "build_order" d && has "gate_status" d)
is_execution_plan v = false

-- `v == s`
abbrev pub is_text : String → Value → Bool
is_text s (str t) = t == s
is_text s v = false

-- `(d.get("gate_status") or {}).get("verdict")`
abbrev pub verdict_in : Fields → Result Value
verdict_in d = do gate ← dict_or_empty (get "gate_status" d); ok (get "verdict" gate)

pub record CorpusPartition : Type 0 where
  pub tuning : List CorpusPlan
  pub held_out : List CorpusPlan

abbrev pub names_of : List CorpusPlan → List String
names_of plans = map (λ p. p.name) plans

-- `CorpusPartition.disjoint`
unfoldable pub is_disjoint : CorpusPartition → Bool
is_disjoint part = disjoint (names_of part.tuning) (names_of part.held_out)

abbrev pub is_correct_halt : CorpusPlan → Bool
is_correct_halt p = elim p.disposition [ end_to_end ↦ false | correct_halt ↦ true ]

pub record CorpusSummary : Type 0 where
  pub n_tuning : ℕ
  pub n_held_out : ℕ
  pub disjoint_sets : Bool
  pub correct_halt_names : List String

-- `CorpusPartition.summary`
unfoldable pub summary : CorpusPartition → CorpusSummary
unfolding is_disjoint
summary part = record {
  n_tuning = length part.tuning;
  n_held_out = length part.held_out;
  disjoint_sets = is_disjoint part;
  correct_halt_names = names_of (keep is_correct_halt (part.tuning ++ part.held_out));
}

abbrev role_of : String → List String → Role
role_of name held_out_names = if elem name held_out_names then held_out_role else tuning_role

-- `(part.held_out if role == "held-out" else part.tuning).append(cp)`
unfoldable pub add_plan : CorpusPlan → CorpusPartition → CorpusPartition
add_plan cp part = elim cp.role [
  | tuning_role ↦ record part { tuning = part.tuning ++ cp ∷ [] }
  | held_out_role ↦ record part { held_out = part.held_out ++ cp ∷ [] }
]

-- the loop over the JSON runs, each with its name, its path and its document
unfoldable pub add_json_runs :
    List String → List (String × String × Fields) → CorpusPartition → Result CorpusPartition
unfolding add_plan
add_json_runs held_out_names [] part = ok part
add_json_runs held_out_names ((name, path, d) ∷ runs) part = do
  verdict ← verdict_in d
  add_json_runs held_out_names runs (
      add_plan
        (record {
          name = name;
          path = path;
          kind = json;
          role = role_of name held_out_names;
          disposition =
              if truthy verdict && not (is_text "PASS" verdict) then correct_halt else end_to_end;
          gate_verdict = verdict;
        })
        part)

-- the loop over the Markdown plans
unfoldable pub add_md_plans :
    List String → List (String × String) → CorpusPartition → CorpusPartition
unfolding add_plan
add_md_plans held_out_names [] part = part
add_md_plans held_out_names ((name, path) ∷ plans) part = add_md_plans held_out_names plans (
    add_plan
      (record {
        name = name;
        path = path;
        kind = md;
        role = role_of name held_out_names;
        disposition = end_to_end;
        gate_verdict = null;
      })
      part)

unfoldable pub partition_corpus :
    List String → List (String × String × Fields) → List (String × String) → Result CorpusPartition
unfolding add_json_runs add_md_plans
partition_corpus held_out_names json_runs md_plans = do
  part ← add_json_runs held_out_names json_runs (record { tuning = []; held_out = [] })
  ok (add_md_plans held_out_names md_plans part)
