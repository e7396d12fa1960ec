-- ===== src/Dod/Decided.antt =====
-- The decision of `verify_dod` in epiphany_executor/dod.py against the answers of the checks.
use Prim.Native.Nat.{max}
use epiphany_executor.Prelude.{
  ℕ, zero, suc, ◌+◌, String, Bool, true, false, ◌&&◌, ◌≡◌, refl, ◌∙◌, inl, inr, List, [], ◌∷◌, Dict,
  lookup, lookup-insert, is_some, or_else, all, all-append, is_empty, if◌then◌else◌, ◌==◌, elem,
  length, arith, eq_refl, Bool-cases,
}
use epiphany_executor.Dod.{
  pass, fail, is_pass, Dod, VerifierContext, RunCheck, Juror, Jury, run_juror, run_jurors, run_jury,
  decide, verify_assembled,
}

module _ (run_check : RunCheck) (vctx : VerifierContext) where
  -- Every check of one juror returns true, when `n` checks ran before.
  abbrev pub juror_passes : ℕ → List String → Bool
  juror_passes n [] = true
  juror_passes n (crit ∷ crits) = run_check n crit vctx && juror_passes (n + 1) crits

  -- Every check of `k` jurors does.
  abbrev pub jury_passes : ℕ → List String → ℕ → Bool
  jury_passes n crits zero = true
  jury_passes n crits (suc k) = juror_passes n crits && jury_passes (n + length crits) crits k

  pub run_juror-calls :
      (crits : List String) (j : Juror)
      → (run_juror run_check vctx crits j).calls ≡ j.calls + length crits
  unfolding run_juror
  run_juror-calls [] j = omega arith
  run_juror-calls (crit ∷ crits) j = omega (arith, run_juror-calls crits _)

  run_juror-agreed :
      (crits : List String) (j : Juror)
      → (run_juror run_check vctx crits j).agreed ≡ (j.agreed && juror_passes j.calls crits)
  unfolding run_juror
  run_juror-agreed [] j = ground arith
  run_juror-agreed (crit ∷ crits) j = run_juror-agreed crits _ ∙ ground arith

  pub run_jurors-votes :
      (crits : List String) (k : ℕ) (s : Jury)
      → all is_pass (run_jurors run_check vctx crits k s).votes
        ≡ (all is_pass s.votes && jury_passes s.calls crits k)
  unfolding run_jurors
  run_jurors-votes crits zero s = ground arith
  run_jurors-votes crits (suc k) s =
      let j =
        run_juror run_check vctx crits
          (record { calls = s.calls; agreed = true; merged = s.merged }) in
      run_jurors-votes crits k _
      ∙ rw (run_juror-calls crits, all-append is_pass s.votes)
          (ground (
            arith,
            run_juror-agreed crits (record { calls = s.calls; agreed = true; merged = s.merged }),
          ))

  -- No criterion has failed so far.
  abbrev NoneFailed : Dict Bool → Type 0
  NoneFailed m = (c : String) → or_else (lookup c m) true ≡ true

  run_juror-NoneFailed :
      (crits : List String) (j : Juror)
      → juror_passes j.calls crits ≡ true
      → NoneFailed j.merged
      → NoneFailed (run_juror run_check vctx crits j).merged
  unfolding run_juror
  run_juror-NoneFailed [] j p h = h
  run_juror-NoneFailed (crit ∷ crits) j p h =
      let value = or_else (lookup crit j.merged) true && run_check j.calls crit vctx in
      run_juror-NoneFailed crits _ (ground arith)
        (λ c. ground (arith, lookup-insert crit c value j.merged, h c, h crit))

  run_juror_keeps :
      (c : String) (crits : List String) (j : Juror)
      → is_some (lookup c j.merged) ≡ true
      → is_some (lookup c (run_juror run_check vctx crits j).merged) ≡ true
  unfolding run_juror
  run_juror_keeps c [] j h = h
  run_juror_keeps c (crit ∷ crits) j h =
      let value = or_else (lookup crit j.merged) true && run_check j.calls crit vctx in
      run_juror_keeps c crits _ (ground (arith, lookup-insert crit c value j.merged))

  run_juror_covers :
      (c : String) (crits : List String) (j : Juror)
      → elem c crits ≡ true
      → is_some (lookup c (run_juror run_check vctx crits j).merged) ≡ true
  unfolding run_juror
  run_juror_covers c [] j m = cc
  run_juror_covers c (crit ∷ crits) j m =
      let value = or_else (lookup crit j.merged) true && run_check j.calls crit vctx in
      elim (Bool-cases (crit == c)) [
        | inl here ↦ run_juror_keeps c crits _ (ground (arith, lookup-insert crit c value j.merged))
        | inr later ↦ run_juror_covers c crits _ (ground arith)
      ]

  -- After a jury of at least one juror whose checks all passed, each criterion is recorded true.
  record Recorded (crits : List String) (m : Dict Bool) : Type 0 where
    sound : NoneFailed m
    covered : (c : String) → elem c crits ≡ true → is_some (lookup c m) ≡ true

  run_jurors-Recorded :
      (crits : List String) (k : ℕ) (s : Jury)
      → jury_passes s.calls crits k ≡ true
      → Recorded crits s.merged
      → Recorded crits (run_jurors run_check vctx crits k s).merged
  unfolding run_jurors
  run_jurors-Recorded crits zero s p r = r
  run_jurors-Recorded crits (suc k) s p r =
      let start : Juror = record { calls = s.calls; agreed = true; merged = s.merged } in
      run_jurors-Recorded crits k _ (rw (run_juror-calls crits start) (ground arith)) (record {
        sound = run_juror-NoneFailed crits start (ground arith) r.sound;
        covered = λ c m. run_juror_covers c crits start m;
      })

  run_jurors-first :
      (crits : List String) (k : ℕ) (s : Jury)
      → jury_passes s.calls crits (suc k) ≡ true
      → NoneFailed s.merged
      → Recorded crits (run_jurors run_check vctx crits (suc k) s).merged
  unfolding run_jurors
  run_jurors-first crits k s p sound =
      let start : Juror = record { calls = s.calls; agreed = true; merged = s.merged } in
      run_jurors-Recorded crits k _ (rw (run_juror-calls crits start) (ground arith)) (record {
        sound = run_juror-NoneFailed crits start (ground arith) sound;
        covered = λ c m. run_juror_covers c crits start m;
      })

  all-Recorded :
      (crits cs : List String) (m : Dict Bool)
      → Recorded crits m
      → ((c : String) → elem c cs ≡ true → elem c crits ≡ true)
      → all (λ c. or_else (lookup c m) false) cs ≡ true
  all-Recorded crits [] m r h = refl
  all-Recorded crits (c ∷ cs) m r h = ground (
    arith,
    r.sound c,
    r.covered c (h c (ground (arith, eq_refl c))),
    all-Recorded crits cs m r (λ d k. h d (ground arith)),
  )

  pub max-one : (jury : ℕ) → (k : ℕ) × (max 1 jury ≡ suc k)
  max-one zero = (0, refl)
  max-one (suc k) = (k, omega arith)

  decide-run_jury :
      (crits : List String) (jury : ℕ)
      → decide crits (run_jury run_check vctx crits jury)
        ≡ (if jury_passes 0 crits (max 1 jury) then pass else fail)
  unfolding decide run_jury
  decide-run_jury crits jury =
      let start : Jury = record { calls = 0; votes = []; merged = [] } in
      let (k, e) = max-one jury in
      rw e (elim (Bool-cases (jury_passes 0 crits (suc k))) [
        | inl passes ↦
            let full =
              all-Recorded crits crits (run_jurors run_check vctx crits (suc k) start).merged
                (run_jurors-first crits k start passes (λ c. refl)) (λ c m. m) in
            ground (arith, run_jurors-votes crits (suc k) start, passes, full)
        | inr vetoed ↦ ground (arith, run_jurors-votes crits (suc k) start, vetoed)
      ])

-- When the Definition-of-Done has some criterion, the decision is PASS if every objective check of
-- every juror returned true, and FAIL otherwise.
pub verify_assembled-decision :
    (run_check : RunCheck) (vctx : VerifierContext) (jury : ℕ) (dod : Dod)
    → (is_empty dod.objective && is_empty dod.subjective) ≡ false
    → (verify_assembled run_check vctx jury dod).decision
      ≡ (if jury_passes run_check vctx 0 dod.objective (max 1 jury) then pass else fail)
unfolding verify_assembled
verify_assembled-decision run_check vctx jury dod h =
    rw h (decide-run_jury run_check vctx dod.objective jury)
