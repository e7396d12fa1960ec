-- ===== src/Examples/Effects.antt =====
-- An example of a dispatched wave.
use epiphany_executor.Prelude.{
  ℕ, ◌+◌, ◌≡◌, refl, String, true, false, none, some, [], ◌∷◌, ok, elem, keys, if◌then◌else◌, ◌==◌,
  arith,
}
use epiphany_executor.Value.{end}
use epiphany_executor.Scheduler.Cohort.{contract_at}
use epiphany_executor.Scheduler.Waves.{Wave, all_steps}
use epiphany_executor.Effector.InMemory.{no_worktrees, create, discard}
use epiphany_executor.Effector.{
  raised, returned, Runtime, WaveResult, any_committed, worktrees, dispatch_wave,
}
use epiphany_executor.Effector.Staged.{no_twice, dispatch_wave-Barrier}
use epiphany_executor.Effector.Total.{dispatch_wave_total}
use epiphany_executor.Examples.Data.{plan}

-- paths named after the steps; the step "b" raises, and "c" runs in the background
abbrev runtime : Runtime ℕ
runtime = record {
  create = λ sid n. (sid, n + 1);
  is_background = λ n sid c. returned (sid == "c");
  dispatch = λ n sid c wt. if sid == "b" then raised "OSError: no space" else returned (some end);
  join = some (λ n sid. returned none);
}

abbrev wave : Wave
wave = record { index = 0; parallel = "a" ∷ "b" ∷ []; serial = "c" ∷ [] }

three_run : (o : WaveResult × ℕ) × (dispatch_wave runtime plan wave 0 ≡ ok o)
unfolding dispatch_wave contract_at
three_run = (_, refl)

dispatch_wave-Barrier_example :
    (any_committed three_run.0.0 ≡ false)
    × (no_twice (worktrees three_run.0.0) ≡ true)
    × ((s : String) → elem s (keys three_run.0.0.results) ≡ elem s (all_steps wave))
dispatch_wave-Barrier_example =
    dispatch_wave-Barrier runtime plan wave 0 three_run.0.0 three_run.0.1 three_run.1

wave_known : (s : String) → elem s (all_steps wave) ≡ true → elem s (keys plan) ≡ true
wave_known s m = ground arith

dispatch_wave_total_example : (o : WaveResult × ℕ) × (dispatch_wave runtime plan wave 0 ≡ ok o)
dispatch_wave_total_example =
    dispatch_wave_total runtime plan (λ s. s) wave 0 (λ s n. refl) (λ s t e. e) refl wave_known

discard-create :
    (discard "<worktree:a>" (create "a" no_worktrees).1).discarded ≡ "<worktree:a>" ∷ []
unfolding create discard
discard-create = refl
