-- ===== src/Gate.antt =====
-- epiphany_executor/gate_defect.py: the start gate that reads a plan's own verdict and defects.
-- A reason is kept as the values that its message interpolates.
pub mod Halting
use epiphany_executor.Prelude.{
  ℕ, String, Bool, true, false, not, ◌&&◌, ◌||◌, List, [], ◌∷◌, ◌++◌, Result, ok, err, ◌>>=◌,
  type_error, codes, upper, lstrip, starts_with, same_text, is_empty, if◌then◌else◌, sorted, dedup,
  leb, eqb,
}
use epiphany_executor.Value.{
  Value, null, bool, nat, negative, float, str, arr, obj, nil, Fields, get, get_or, to_text,
  to_list, dict_or_empty, iterate, iterate_or_empty,
}

-- `\w` on ASCII
abbrev pub is_word : ℕ → Bool
is_word c =
    (leb b'a' c && leb c b'z')
    || (leb b'A' c && leb c b'Z')
    || (leb b'0' c && leb c b'9')
    || eqb c 95

-- what stands after the six letters is no word character
word_ends : List ℕ → Bool
word_ends (d ∷ e ∷ f ∷ g ∷ h ∷ i ∷ c ∷ rest) = not (is_word c)
word_ends s = true

-- `^\s*DEFECT\b`, ignoring case
unfoldable pub matches_defect : List ℕ → Bool
unfolding word_ends upper lstrip starts_with
matches_defect s = let t = lstrip s in starts_with (upper t) (codes "DEFECT") && word_ends t

unfoldable pub is_blocking_status : Value → Bool
unfolding matches_defect
is_blocking_status (str s) = matches_defect (codes s)
is_blocking_status v = false

pub data Reason : Type 0 where
  verdict_not_pass : List ℕ → Reason
  gate_blocking : Reason
  blocking_defect : Value → Value → Reason
  plain_defect : Value → Reason
  structural_fault : Value → Value → Reason
  blocking_check : Value → Value → Value → Reason

pub data Decision : Type 0 where
  halt proceed : Decision

pub record GateDecision : Type 0 where
  pub decision : Decision
  pub reasons : List Reason
  pub blocking_steps : List String

-- `GateDecision.halts`
abbrev pub halts : GateDecision → Bool
halts d = elim d.decision [ halt ↦ true | proceed ↦ false ]

-- the dictionaries of a list
unfoldable pub dicts : List Value → List Fields
dicts [] = []
dicts (obj fs ∷ vs) = fs ∷ dicts vs
dicts (v ∷ vs) = dicts vs

unfoldable pub iter_step_ics : Fields → List Fields
unfolding dicts
iter_step_ics step = elim (get "integration_checks" step) [
  | obj fs ↦ fs ∷ []
  | arr vs ↦ dicts (to_list vs)
  | _ ↦ []
]

-- `str(gate.get(key, "")).upper()`
unfoldable pub upper_of : String → Fields → List ℕ
unfolding upper to_text
upper_of key gate = upper (codes (to_text (get_or key (str "") gate)))

unfoldable pub verdict_reasons : Fields → List Reason
unfolding upper_of same_text
verdict_reasons gate =
    let verdict = upper_of "verdict" gate in
    let passes = same_text verdict (codes "PASS") in
    (if not (is_empty verdict) && not passes then verdict_not_pass verdict ∷ [] else [])
    ++ (if same_text (upper_of "gate" gate) (codes "BLOCKING") && not passes
        then gate_blocking ∷ []
        else [])

unfoldable pub defect_reason : Value → Reason
defect_reason (obj d) =
    blocking_defect (get_or "id" (str "?") d) (get_or "type" (get_or "detail" (str "") d) d)
defect_reason v = plain_defect v

unfoldable pub defect_reasons : List Value → List Reason
unfolding defect_reason
defect_reasons [] = []
defect_reasons (v ∷ vs) = defect_reason v ∷ defect_reasons vs

unfoldable pub fault_reasons : List Fields → List Reason
fault_reasons [] = []
fault_reasons (f ∷ fs) =
    structural_fault (get_or "fault_id" (str "?") f) (get_or "type" (str "") f) ∷ fault_reasons fs

-- The first blocking check of a step, after which the loop breaks; at most one.
unfoldable pub first_blocking : List Fields → List Fields
unfolding is_blocking_status
first_blocking [] = []
first_blocking (ic ∷ ics) =
    let later = first_blocking ics in
    if is_blocking_status (get "status" ic) then ic ∷ [] else later

-- What one step adds to the reasons, and its id when it is blocking.
unfoldable pub step_reasons : Fields → List Reason
unfolding first_blocking iter_step_ics
step_reasons step = elim (first_blocking (iter_step_ics step)) [
  | [] ↦ []
  | ic ∷ _ ↦
      blocking_check (get_or "step_id" (str "?") step) (get_or "id" (str "?") ic) (get "status" ic)
      ∷ []
]

unfoldable pub all_step_reasons : List Fields → List Reason
unfolding step_reasons
all_step_reasons [] = []
all_step_reasons (s ∷ ss) = step_reasons s ++ all_step_reasons ss

-- the step ids of the blocking checks; the annotation says that ids are texts
unfoldable pub blocking_ids : List Reason → Result (List String)
blocking_ids [] = ok []
blocking_ids (blocking_check (str sid) i s ∷ rs) = do ids ← blocking_ids rs; ok (sid ∷ ids)
blocking_ids (blocking_check v i s ∷ rs) = err type_error
blocking_ids (r ∷ rs) = blocking_ids rs

-- every reason, in the order in which the function appends them
unfoldable pub gate_reasons : Fields → Result (List Reason)
unfolding verdict_reasons defect_reasons fault_reasons all_step_reasons dicts
gate_reasons plan = do
  gate ← dict_or_empty (get "gate_status" plan)
  defects ← iterate_or_empty (get "blocking_defects" plan)
  faults ← iterate_or_empty (get "structural_faults" plan)
  steps ← iterate (get_or "steps" (arr nil) plan)
  ok (
      verdict_reasons gate
      ++ defect_reasons defects
      ++ fault_reasons (dicts faults)
      ++ all_step_reasons (dicts steps))

unfoldable pub evaluate_gate : Fields → Result GateDecision
unfolding gate_reasons blocking_ids
evaluate_gate plan = do
  reasons ← gate_reasons plan
  ids ← blocking_ids reasons
  ok (record {
    decision = if is_empty reasons then proceed else halt;
    reasons = reasons;
    blocking_steps = sorted (dedup ids);
  })
