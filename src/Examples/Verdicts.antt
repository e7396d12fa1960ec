-- ===== src/Examples/Verdicts.antt =====
-- Examples of verification and of the halt that a failed one ends in.
use epiphany_executor.Dod.Answers.{answers, verify_assembled-objective_results}
use epiphany_executor.Dod.{is_pass}
use epiphany_executor.Prelude.{lookup, elem, none, some, String}
use Prim.Native.Nat.{max}
use epiphany_executor.Prelude.{
  ltb, ◌≡◌, refl, true, not, ◌&&◌, [], ◌∷◌, all, ok, is_empty, if◌then◌else◌,
}
use epiphany_executor.Value.{end, to_text}
use epiphany_executor.Contract.{Contract}
use epiphany_executor.Lifecycle.{failed}
use epiphany_executor.Scheduler.Static.{count_irreversible_effects}
use epiphany_executor.Dod.{
  Dod, VerifierContext, RunCheck, Verdict, pass, fail, blocked, classify_criterion,
  verify_assembled, verify_dod, dod_field,
}
use epiphany_executor.Dod.Decided.{jury_passes}
use epiphany_executor.Dod.Criteria.{
  is_blocked, is_subjective, verify_dod-blocked, subjective_only_passes,
}
use epiphany_executor.Recovery.{
  HaltState, on_verify_fail, retry, rollback, fork, skip_with_waiver, halt_for_human,
}
use epiphany_executor.Recovery.Menu.{offers, on_verify_fail-menu}
use epiphany_executor.Examples.Data.{step, step_a, step_b, step_c}

-- every check but the second one passes
abbrev second_fails : RunCheck
second_fails n crit vctx = not (ltb n 2 && ltb 0 n)

abbrev vctx : VerifierContext
vctx = record { contract = step_a; integration_checks = []; artifacts = end; ledger = [] }

abbrev two_checks : Dod
two_checks = record {
  objective = "pytest passes" ∷ "file exists" ∷ [];
  subjective = [];
  outputs = [];
  low_confidence = [];
}

abbrev no_criteria : Contract
no_criteria = step "d" [] [] []

abbrev blocked_verdict : Verdict
blocked_verdict = record {
  decision = blocked;
  objective_results = [];
  subjective_deferred = [];
  low_confidence = [];
  jury_votes = [];
  reason = "empty acceptance_criteria (INV-10 fail-closed)";
}

verify_dod-no_criteria : verify_dod second_fails no_criteria end [] 3 ≡ ok blocked_verdict
unfolding verify_dod
verify_dod-no_criteria = refl

verify_dod-blocked_example : is_blocked blocked_verdict.decision ≡ (
    is_empty (dod_field no_criteria).acceptance_criteria
    && is_empty (dod_field no_criteria).integration_checks)
verify_dod-blocked_example =
    verify_dod-blocked second_fails no_criteria end [] 3 blocked_verdict verify_dod-no_criteria

b_is_subjective :
    all
      (λ v. is_subjective (classify_criterion (to_text v)).0)
      (dod_field step_b).acceptance_criteria
    ≡ true
unfolding classify_criterion to_text
b_is_subjective = refl

on_verify_fail-menu_example :
    (h : HaltState) × (on_verify_fail step_c 7 true "DoD failed" ≡ ok h)
    × (h.lifecycle_state ≡ failed)
    × (offers retry h.menu && offers fork h.menu && offers halt_for_human h.menu ≡ true)
    × (offers rollback h.menu ≡ not (ltb 0 (count_irreversible_effects step_c)))
    × (h.forbidden_rollback ≡ ltb 0 (count_irreversible_effects step_c))
    × (offers skip_with_waiver h.menu ≡ true)
on_verify_fail-menu_example = on_verify_fail-menu step_c 7 true "DoD failed"

verify_assembled-objective_results_example :
    ((verify_assembled second_fails vctx 3 two_checks).decision
      ≡ (if jury_passes second_fails vctx 0 two_checks.objective (max 1 3) then pass else fail))
    × (all is_pass (verify_assembled second_fails vctx 3 two_checks).jury_votes
        ≡ jury_passes second_fails vctx 0 two_checks.objective (max 1 3))
    × ((c : String)
        → lookup c (verify_assembled second_fails vctx 3 two_checks).objective_results ≡ (
            if elem c two_checks.objective
            then some (answers second_fails vctx c 0 two_checks.objective (max 1 3))
            else none))
verify_assembled-objective_results_example =
    verify_assembled-objective_results second_fails vctx 3 two_checks refl

subjective_only_passes_example :
    (v : Verdict) × (verify_dod second_fails step_b end [] 3 ≡ ok v)
    × (v.decision ≡ pass)
    × (v.objective_results ≡ [])
subjective_only_passes_example =
    subjective_only_passes second_fails step_b end [] 3 refl b_is_subjective refl
