-- ===== src/Coverage.antt =====
-- epiphany_executor/coverage.py: the requirement matrix, orphans and the waiver. Requirements are
-- texts, as the annotations say; another hashable value as a requirement is reported as an error.
pub mod Orphans
use epiphany_executor.Prelude.{
  String, Bool, true, false, not, ◌&&◌, Option, none, some, List, [], ◌∷◌, ◌++◌, Result, ok, err,
  ◌>>=◌, ◌>>◌, guard, type_error, value_error, attribute_error, Dict, insert, lookup, keys, or_else,
  is_empty, if◌then◌else◌, sorted, dedup, keep,
}
use epiphany_executor.Value.{
  Value, null, bool, nat, negative, float, str, arr, obj, nil, Fields, end, field, to_list, get,
  get_or, truthy, dict_or_empty, iterate,
}

-- `list(t) if isinstance(t, list) else [t]`, and no trace for a missing one
abbrev trace_list : Value → List Value
trace_list null = []
trace_list (arr vs) = to_list vs
trace_list v = v ∷ []

abbrev if_null : Value → Value → Value
if_null null w = w
if_null v w = v

unfoldable pub traces_of : Fields → List Value
traces_of step = trace_list (if_null (get "traces_to" step) (get "traces_requirements" step))

unfoldable pub text_of : Value → Result String
text_of (str s) = ok s
text_of v = err type_error

unfoldable pub texts_of : List Value → Result (List String)
unfolding text_of
texts_of [] = ok []
texts_of (v ∷ vs) = do s ← text_of v; ss ← texts_of vs; ok (s ∷ ss)

-- One step as the matrix sees it: its id and the requirements that it traces.
pub record Tracing : Type 0 where
  pub step_id : Value
  pub requirements : List String

-- the steps that are dicts, in order
unfoldable pub tracings : List Value → Result (List Tracing)
unfolding texts_of traces_of
tracings [] = ok []
tracings (obj s ∷ vs) = do
  reqs ← texts_of (traces_of s)
  rest ← tracings vs
  ok (record { step_id = get "step_id" s; requirements = reqs } ∷ rest)
tracings (v ∷ vs) = tracings vs

abbrev pub Matrix : Type 0
Matrix = Dict (List Value)

-- `matrix.get(req)` as a list
abbrev pub row : String → Matrix → List Value
row req m = or_else (lookup req m) []

-- `for req in ...: matrix.setdefault(req, []).append(sid)`
unfoldable pub add_requirements : Value → List String → Matrix → Matrix
add_requirements sid [] m = m
add_requirements sid (req ∷ reqs) m =
    add_requirements sid reqs (insert req (row req m ++ sid ∷ []) m)

unfoldable pub add_tracings : List Tracing → Matrix → Matrix
unfolding add_requirements
add_tracings [] m = m
add_tracings (t ∷ ts) m = add_tracings ts (add_requirements t.step_id t.requirements m)

unfoldable pub plan_tracings : Fields → Result (List Tracing)
unfolding tracings
plan_tracings plan = do steps ← iterate (get_or "steps" (arr nil) plan); tracings steps

unfoldable pub build_matrix : Fields → Result Matrix
unfolding plan_tracings add_tracings
build_matrix plan = do ts ← plan_tracings plan; ok (add_tracings ts [])

abbrev obligation_list : Value → Result (List String)
obligation_list (arr vs) = texts_of (to_list vs)
obligation_list v = ok []

unfoldable pub input_obligations : Fields → Result (List String)
unfolding texts_of
input_obligations plan = do
  rp ← dict_or_empty (get "requirement_preservation" plan)
  obligation_list (get "input_obligations" rp)

abbrev pub dict_of : Fields → Dict Value
dict_of end = []
dict_of (field k v fs) = (k, v) ∷ dict_of fs

abbrev mapping : Value → Dict Value
mapping (obj fs) = dict_of fs
mapping v = []

unfoldable pub req_to_step_map : Fields → Result (Dict Value)
req_to_step_map plan = do
  gs ← dict_or_empty (get "gate_status" plan)
  ok (mapping (get "requirement_to_step_map" gs))

pub data OrphanKind : Type 0 where
  executor_caused plan_caused : OrphanKind

pub record Orphan : Type 0 where
  pub requirement : String
  pub kind : OrphanKind
  pub expected_step : Value

abbrev pub is_executor_caused : Orphan → Bool
is_executor_caused o = elim o.kind [ executor_caused ↦ true | plan_caused ↦ false ]

-- the body of the loop over the candidate requirements
unfoldable pub orphan_of : Matrix → Dict Value → String → List Orphan
orphan_of m req_map req =
    let expected = or_else (lookup req req_map) null in
    if not (is_empty (row req m))
    then []
    else if truthy expected
    then record { requirement = req; kind = executor_caused; expected_step = expected } ∷ []
    else record { requirement = req; kind = plan_caused; expected_step = null } ∷ []

unfoldable pub orphans_of : Matrix → Dict Value → List String → List Orphan
unfolding orphan_of
orphans_of m req_map [] = []
orphans_of m req_map (req ∷ reqs) = orphan_of m req_map req ++ orphans_of m req_map reqs

pub record CoverageReport : Type 0 where
  pub matrix : Matrix
  pub orphans : List Orphan

-- `CoverageReport.executor_caused`, `plan_caused` and `blocks`
unfoldable pub executor_caused_orphans : CoverageReport → List Orphan
executor_caused_orphans r = keep is_executor_caused r.orphans

unfoldable pub plan_caused_orphans : CoverageReport → List Orphan
plan_caused_orphans r = keep (λ o. not (is_executor_caused o)) r.orphans

unfoldable pub blocks : CoverageReport → Bool
unfolding executor_caused_orphans
blocks r = not (is_empty (executor_caused_orphans r))

unfoldable pub coverage_report : Fields → Result CoverageReport
unfolding build_matrix input_obligations req_to_step_map orphans_of
coverage_report plan = do
  m ← build_matrix plan
  obligations ← input_obligations plan
  req_map ← req_to_step_map plan
  let candidates = sorted (dedup (obligations ++ keys req_map))
  ok (record { matrix = m; orphans = orphans_of m req_map candidates })

pub record Waiver : Type 0 where
  pub requirement : String
  pub operator_ack : Bool
  pub routed_to : String

unfoldable pub waive_plan_caused_orphan : Orphan → Bool → Result Waiver
waive_plan_caused_orphan orphan operator_ack = do
  guard (not (is_executor_caused orphan)) value_error
  guard operator_ack value_error
  ok (record { requirement = orphan.requirement; operator_ack = true; routed_to = "epiphany-plan" })
