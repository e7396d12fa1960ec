-- ===== src/Dod/Answers.antt =====
-- The votes and the merged results of `verify_dod` in epiphany_executor/dod.py against the answers of
-- the checks.
use Prim.Native.Nat.{max}
use epiphany_executor.Prelude.{
  ℕ, zero, suc, ◌+◌, String, Bool, true, false, ◌&&◌, ◌≡◌, refl, ◌∙◌, ap, inl, inr, Option, none,
  some, List, [], ◌∷◌, lookup, lookup-insert, or_else, all, is_empty, if◌then◌else◌, ◌==◌, elem,
  length, insert, eq_iff, ◌⊎◌, arith, Bool-cases,
}
use epiphany_executor.Dod.{
  pass, fail, is_pass, Dod, VerifierContext, RunCheck, Juror, Jury, run_juror, run_jurors, run_jury,
  verify_assembled,
}
use epiphany_executor.Dod.Decided.{
  jury_passes, run_juror-calls, run_jurors-votes, max-one, verify_assembled-decision,
}

module _ (run_check : RunCheck) (vctx : VerifierContext) (c : String) where
  -- Every check that one juror runs for the criterion `c` returns true, when `n` checks ran before.
  abbrev pub answers_of_juror : ℕ → List String → Bool
  answers_of_juror n [] = true
  answers_of_juror n (crit ∷ crits) =
      (if crit == c then run_check n crit vctx else true) && answers_of_juror (n + 1) crits

  -- Every such check of `k` jurors does.
  abbrev pub answers : ℕ → List String → ℕ → Bool
  answers n crits zero = true
  answers n crits (suc k) = answers_of_juror n crits && answers (n + length crits) crits k

  answers_of_juror-absent :
      (n : ℕ) (crits : List String) → elem c crits ≡ false → answers_of_juror n crits ≡ true
  answers_of_juror-absent n [] m = refl
  answers_of_juror-absent n (crit ∷ crits) m = ground (arith, answers_of_juror-absent (n + 1) crits)

  run_juror-lookup :
      (crits : List String) (j : Juror)
      → lookup c (run_juror run_check vctx crits j).merged ≡ (
          if elem c crits
          then some (or_else (lookup c j.merged) true && answers_of_juror j.calls crits)
          else lookup c j.merged)
  unfolding run_juror
  run_juror-lookup [] j = refl
  run_juror-lookup (crit ∷ crits) j =
      let value = or_else (lookup crit j.merged) true && run_check j.calls crit vctx in
      let put = lookup-insert crit c value j.merged in
      run_juror-lookup crits _ ∙ by_name (Bool-cases (crit == c)) put
    where
      by_name :
          (crit == c ≡ true) ⊎ (crit == c ≡ false)
          → lookup c (
              insert crit
                (or_else (lookup crit j.merged) true && run_check j.calls crit vctx)
                j.merged)
            ≡ (if crit == c
                then some (or_else (lookup crit j.merged) true && run_check j.calls crit vctx)
                else lookup c j.merged)
          → (if elem c crits
              then some (
                  or_else
                    (lookup c (
                      insert crit
                        (or_else (lookup crit j.merged) true && run_check j.calls crit vctx)
                        j.merged))
                    true
                  && answers_of_juror (j.calls + 1) crits)
              else lookup c (
                  insert crit
                    (or_else (lookup crit j.merged) true && run_check j.calls crit vctx)
                    j.merged))
            ≡ (if elem c (crit ∷ crits)
                then some
                    (or_else (lookup c j.merged) true && answers_of_juror j.calls (crit ∷ crits))
                else lookup c j.merged)
      by_name (inl same) put =
          let e = ap (λ y. lookup y j.merged) ((eq_iff crit c).0 same) in
          rw (put, same)
            (rw e (elim (Bool-cases (elem c crits)) [
              | inl more ↦ rw more (ground arith)
              | inr last ↦
                  rw last (ground (arith, answers_of_juror-absent (j.calls + 1) crits last))
            ]))
      by_name (inr other) put = rw (put, other) refl

  abbrev is_pos : ℕ → Bool
  is_pos zero = false
  is_pos (suc k) = true

  run_jurors-lookup :
      (crits : List String) (k : ℕ) (s : Jury)
      → lookup c (run_jurors run_check vctx crits k s).merged ≡ (
          if elem c crits && is_pos k
          then some (or_else (lookup c s.merged) true && answers s.calls crits k)
          else lookup c s.merged)
  unfolding run_jurors
  run_jurors-lookup crits zero s = ground arith
  run_jurors-lookup crits (suc k) s =
      let start : Juror = record { calls = s.calls; agreed = true; merged = s.merged } in
      let j = run_juror run_check vctx crits start in
      run_jurors-lookup crits k _
      ∙ rw (run_juror-calls run_check vctx crits start, run_juror-lookup crits start)
          (merge (elem c crits) k (lookup c s.merged) (answers_of_juror s.calls crits)
            (answers (s.calls + length crits) crits) refl)
    where
      merge :
          (m : Bool) (k : ℕ) (o : Option Bool) (p : Bool) (q : ℕ → Bool)
          → q 0 ≡ true
          → (if m && is_pos k
              then some (or_else (if m then some (or_else o true && p) else o) true && q k)
              else if m
              then some (or_else o true && p)
              else o)
            ≡ (if m && true then some (or_else o true && (p && q k)) else o)
      merge m zero o p q none_left = ground (arith, none_left)
      merge m (suc k) o p q none_left = ground arith

-- When the Definition-of-Done has some criterion, the decision is PASS if every objective check of
-- every juror returned true and FAIL otherwise, every vote is PASS exactly in that case, and the
-- recorded result of each objective criterion is true exactly if every check of every juror for
-- this criterion returned true; nothing else is recorded.
pub verify_assembled-objective_results :
    (run_check : RunCheck) (vctx : VerifierContext) (jury : ℕ) (dod : Dod)
    → (is_empty dod.objective && is_empty dod.subjective) ≡ false
    → let v = verify_assembled run_check vctx jury dod in
      let passes = jury_passes run_check vctx 0 dod.objective (max 1 jury) in
      (v.decision ≡ (if passes then pass else fail))
      × (all is_pass v.jury_votes ≡ passes)
      × ((c : String)
          → lookup c v.objective_results ≡ (
              if elem c dod.objective
              then some (answers run_check vctx c 0 dod.objective (max 1 jury))
              else none))
unfolding verify_assembled run_jury
verify_assembled-objective_results run_check vctx jury dod h =
    let start : Jury = record { calls = 0; votes = []; merged = [] } in
    let (k, e) = max-one run_check vctx jury in
    (
      verify_assembled-decision run_check vctx jury dod h,
      rw h (run_jurors-votes run_check vctx dod.objective (max 1 jury) start),
      λ c.
          rw (h, e) (run_jurors-lookup run_check vctx c dod.objective (suc k) start ∙ ground arith),
    )
