-- ===== src/Dod/Criteria.antt =====
-- `verify_dod` of epiphany_executor/dod.py on contracts without criteria, and with subjective ones.
use Prim.Native.Nat.{max}
use epiphany_executor.Prelude.{
  ℕ, zero, suc, ◌+◌, String, Bool, true, false, ◌&&◌, ◌≡◌, refl, sym, ◌∙◌, ap, inl, inr, List, [],
  ◌∷◌, ok, >>=-eq-ok, ok_inj, all, &&-eq-true, is_empty, arith, Bool-cases,
}
use epiphany_executor.Value.{Value, Fields, to_text}
use epiphany_executor.Ledger.{LedgerEntry}
use epiphany_executor.Contract.{Contract}
use epiphany_executor.Dod.{
  CriterionClass, objective_class, subjective_class, Decision, pass, blocked, classify_criterion,
  Dod, add_criterion, add_criteria, check_texts, check_text, dod_field, assemble_dod,
  VerifierContext, for_step, RunCheck, Jury, run_juror, run_jurors, run_jury, Verdict,
  verify_assembled, verify_dod,
}
use epiphany_executor.Dod.Decided.{jury_passes, verify_assembled-decision}

add_criteria-empty :
    (vs : List Value) (d : Dod)
    → (is_empty (add_criteria vs d).objective && is_empty (add_criteria vs d).subjective)
      ≡ (is_empty vs && (is_empty d.objective && is_empty d.subjective))
unfolding add_criteria
add_criteria-empty [] d = refl
add_criteria-empty (v ∷ vs) d = by_class (to_text v) (classify_criterion (to_text v))
  where
    by_class :
        (text : String) (k : CriterionClass × ℕ)
        → (is_empty (add_criterion text k (add_criteria vs d)).objective
            && is_empty (add_criterion text k (add_criteria vs d)).subjective)
          ≡ false
    by_class text (objective_class, conf) = refl
    by_class text (subjective_class, conf) = ground arith

check_texts-empty :
    (vs : List Value) (ss : List String) → check_texts vs ≡ ok ss → is_empty ss ≡ is_empty vs
unfolding check_texts
check_texts-empty [] ss h = rw (sym (ok_inj h)) refl
check_texts-empty (v ∷ vs) ss h =
    let (s, e, h1) = >>=-eq-ok (check_text v) _ h in
    let (rest, f, h2) = >>=-eq-ok (check_texts vs) _ h1 in rw (sym (ok_inj h2)) refl

abbrev pub is_blocked : Decision → Bool
is_blocked blocked = true
is_blocked _ = false

-- When verification returns a verdict, the verdict is BLOCKED exactly when the contract has neither
-- acceptance criteria nor integration checks, whatever the checks, the outputs and the jury are.
pub verify_dod-blocked :
    (run_check : RunCheck) (c : Contract) (artifacts : Fields) (ledger : List LedgerEntry)
    (jury : ℕ) (v : Verdict)
    → verify_dod run_check c artifacts ledger jury ≡ ok v
    → is_blocked v.decision
      ≡ (is_empty (dod_field c).acceptance_criteria && is_empty (dod_field c).integration_checks)
unfolding verify_dod assemble_dod
verify_dod-blocked run_check c artifacts ledger jury v h =
    let (dod, e, last) = >>=-eq-ok (assemble_dod c) _ h in
    let (checks, f, made) = >>=-eq-ok (check_texts (dod_field c).integration_checks) _ e in
    let vctx = for_step c artifacts ledger in
    let base : Dod = record {
      objective = checks;
      subjective = [];
      outputs = (dod_field c).outputs;
      low_confidence = [];
    } in
    let empty = add_criteria-empty (dod_field c).acceptance_criteria base in
    let same = check_texts-empty (dod_field c).integration_checks checks f in
    ap (λ (x : Verdict). is_blocked x.decision) (sym (ok_inj last))
    ∙ blocked_iff vctx dod
    ∙ ap (λ (d : Dod). is_empty d.objective && is_empty d.subjective) (sym (ok_inj made))
    ∙ empty
    ∙ rw same (ground arith)
  where
    blocked_iff :
        (vctx : VerifierContext) (d : Dod)
        → is_blocked (verify_assembled run_check vctx jury d).decision
          ≡ (is_empty d.objective && is_empty d.subjective)
    blocked_iff vctx d = elim (Bool-cases (is_empty d.objective && is_empty d.subjective)) [
      | inl none_at_all ↦ unfold verify_assembled in rw none_at_all refl
      | inr some_criterion ↦
          ap is_blocked (verify_assembled-decision run_check vctx jury d some_criterion)
          ∙ ground arith
    ]

jury_passes-nil :
    (run_check : RunCheck) (vctx : VerifierContext) (n k : ℕ)
    → jury_passes run_check vctx n [] k ≡ true
jury_passes-nil run_check vctx n zero = refl
jury_passes-nil run_check vctx n (suc k) = jury_passes-nil run_check vctx (n + 0) k

abbrev pub is_subjective : CriterionClass → Bool
is_subjective subjective_class = true
is_subjective objective_class = false

add_criteria-subjective :
    (vs : List Value) (d : Dod)
    → all (λ v. is_subjective (classify_criterion (to_text v)).0) vs ≡ true
    → (add_criteria vs d).objective ≡ d.objective
unfolding add_criteria
add_criteria-subjective [] d h = refl
add_criteria-subjective (v ∷ vs) d h =
    by_class (to_text v) (classify_criterion (to_text v)) (&&-eq-true _ _ h).0
    ∙ add_criteria-subjective vs d (&&-eq-true _ _ h).1
  where
    by_class :
        (text : String) (k : CriterionClass × ℕ)
        → is_subjective k.0 ≡ true
        → (add_criterion text k (add_criteria vs d)).objective ≡ (add_criteria vs d).objective
    by_class text (objective_class, conf) p = cc
    by_class text (subjective_class, conf) p = refl

run_jurors-unchecked :
    (run_check : RunCheck) (vctx : VerifierContext) (k : ℕ) (s : Jury)
    → (run_jurors run_check vctx [] k s).merged ≡ s.merged
unfolding run_jurors run_juror
run_jurors-unchecked run_check vctx zero s = refl
run_jurors-unchecked run_check vctx (suc k) s = run_jurors-unchecked run_check vctx k _

verify_assembled-unchecked :
    (run_check : RunCheck) (vctx : VerifierContext) (jury : ℕ) (dod : Dod)
    → dod.objective ≡ []
    → (verify_assembled run_check vctx jury dod).objective_results ≡ []
unfolding verify_assembled run_jury
verify_assembled-unchecked run_check vctx jury dod h =
    elim (Bool-cases (is_empty dod.objective && is_empty dod.subjective)) [
      | inl empty ↦ rw empty refl
      | inr filled ↦ rw filled (
          rw h (
            run_jurors-unchecked run_check vctx (max 1 jury)
              (record { calls = 0; votes = []; merged = [] })))
    ]

-- A contract whose acceptance criteria are all classified as subjective, with at least one of them
-- and no integration check, gets the verdict PASS from every jury, whatever the checks would
-- answer, and the verdict records no result of a check: the deferred criteria do not stop the step.
pub subjective_only_passes :
    (run_check : RunCheck) (c : Contract) (artifacts : Fields) (ledger : List LedgerEntry)
    (jury : ℕ)
    → is_empty (dod_field c).acceptance_criteria ≡ false
    → all (λ v. is_subjective (classify_criterion (to_text v)).0) (dod_field c).acceptance_criteria
      ≡ true
    → is_empty (dod_field c).integration_checks ≡ true
    → (v : Verdict) × (verify_dod run_check c artifacts ledger jury ≡ ok v)
      × (v.decision ≡ pass)
      × (v.objective_results ≡ [])
unfolding verify_dod assemble_dod
subjective_only_passes run_check c artifacts ledger jury some_criterion subjective no_check =
    let vctx = for_step c artifacts ledger in
    let base : Dod = record {
      objective = [];
      subjective = [];
      outputs = (dod_field c).outputs;
      low_confidence = [];
    } in
    let dod = add_criteria (dod_field c).acceptance_criteria base in
    let none_objective =
      add_criteria-subjective (dod_field c).acceptance_criteria base subjective in
    let empty = add_criteria-empty (dod_field c).acceptance_criteria base in
    (
      verify_assembled run_check vctx jury dod,
      rw (nil_of_empty (dod_field c).integration_checks no_check) (unfold check_texts in refl),
      verify_assembled-decision run_check vctx jury dod (empty ∙ rw some_criterion refl)
          ∙ rw (none_objective, jury_passes-nil run_check vctx 0 (max 1 jury)) refl,
      verify_assembled-unchecked run_check vctx jury dod none_objective,
    )
  where
    nil_of_empty : (vs : List Value) → is_empty vs ≡ true → vs ≡ []
    nil_of_empty [] e = refl
    nil_of_empty (v ∷ vs) e = cc
