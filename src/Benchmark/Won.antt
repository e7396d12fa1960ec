-- ===== src/Benchmark/Won.antt =====
-- When the comparison of epiphany_executor/benchmark.py passes.
use epiphany_executor.Prelude.{
  Bool, true, false, not, ◌&&◌, ◌||◌, ◌≡◌, refl, [], ◌∷◌, ok, all, leb, arith,
}
use epiphany_executor.Benchmark.{ArmMetrics}
use epiphany_executor.Benchmark.Compare.{
  above, no_less, sum_true, float_of, score_vector, executor_beats_baseline, jury_veto_self_test,
}

above-float_of : (b e : Bool) → above (float_of e) (float_of b) ≡ (e && not b)
above-float_of true true = refl
above-float_of true false = refl
above-float_of false true = refl
above-float_of false false = refl

no_less-float_of : (b e : Bool) → no_less (float_of e) (float_of b) ≡ (not b || e)
no_less-float_of true true = refl
no_less-float_of true false = refl
no_less-float_of false true = refl
no_less-float_of false false = refl

-- Three strict wins follow from the decisive three.
passes-of_flags :
    (w1 w2 w4 n1 n2 n4 b3 e3 b5 e5 b6 e6 : Bool)
    → (((e3 && not b3) && ((e5 && not b5) && (e6 && not b6)))
        && (leb 3 (sum_true (w1 ∷ w2 ∷ (e3 && not b3) ∷ w4 ∷ (e5 && not b5) ∷ (e6 && not b6) ∷ []))
            && all (λ t. t) (n1 ∷ n2 ∷ (not b3 || e3) ∷ n4 ∷ (not b5 || e5) ∷ (not b6 || e6) ∷ [])))
      ≡ ((e3 && not b3) && ((e5 && not b5) && ((e6 && not b6) && (n4 && (n1 && n2)))))
passes-of_flags w1 w2 w4 n1 n2 n4 false true false true false true = ground arith
passes-of_flags w1 w2 w4 n1 n2 n4 b3 false b5 e5 b6 e6 = refl
passes-of_flags w1 w2 w4 n1 n2 n4 true true b5 e5 b6 e6 = refl
passes-of_flags w1 w2 w4 n1 n2 n4 false true true true b6 e6 = refl
passes-of_flags w1 w2 w4 n1 n2 n4 false true b5 false b6 e6 = refl
passes-of_flags w1 w2 w4 n1 n2 n4 false true false true true true = refl
passes-of_flags w1 w2 w4 n1 n2 n4 false true false true b6 false = refl

-- Whatever two arms measured, the executor passes exactly if it has the back-update, the recovery
-- and the coverage that the baseline lacks, its rates are no lower, and it succeeds end to end if
-- the baseline does.
pub executor_beats_baseline-passes :
    (b e : ArmMetrics)
    → (executor_beats_baseline b e).passes_R018 ≡ (
        (e.back_update_correct && not b.back_update_correct)
        && ((e.recovery_ok && not b.recovery_ok)
            && ((e.coverage_closed && not b.coverage_closed)
                && ((not b.end_to_end_success || e.end_to_end_success)
                    && (no_less e.verified_step_rate b.verified_step_rate
                        && no_less e.verify_pass_rate b.verify_pass_rate)))))
unfolding executor_beats_baseline score_vector
executor_beats_baseline-passes b e =
    rw
      (
        above-float_of b.back_update_correct e.back_update_correct,
        above-float_of b.recovery_ok e.recovery_ok,
        above-float_of b.coverage_closed e.coverage_closed,
        no_less-float_of b.back_update_correct e.back_update_correct,
        no_less-float_of b.end_to_end_success e.end_to_end_success,
        no_less-float_of b.recovery_ok e.recovery_ok,
        no_less-float_of b.coverage_closed e.coverage_closed,
      )
      (passes-of_flags _ _ _ _ _ _ b.back_update_correct e.back_update_correct b.recovery_ok
        e.recovery_ok b.coverage_closed e.coverage_closed)

jury_veto_self_test-ok : jury_veto_self_test ≡ ok true
unfolding jury_veto_self_test
jury_veto_self_test-ok = refl
