-- ===== src/Effector/Total.antt =====
-- When `dispatch_wave` of epiphany_executor/effector.py reaches the barrier.
use epiphany_executor.Prelude.{
  ◌+◌, String, true, false, ◌≡◌, refl, ◌∙◌, ap, inl, inr, none, List, [], ◌∷◌, ◌++◌, ok, >>=-eq-ok,
  Dict, insert, keys, elem, ◌==◌, eq_iff, eq_refl, arith, Bool-cases,
}
use epiphany_executor.Contract.{Contract}
use epiphany_executor.Scheduler.Cohort.Total.{IsKnown-key}
use epiphany_executor.Scheduler.Waves.{Wave, all_steps}
use epiphany_executor.Effector.{
  WaveResult, Runtime, Progress, attempt, run_one, run_all, dispatch_wave,
}
use epiphany_executor.Effector.Staged.{no_twice}

module _ {W : Type 0} (runtime : Runtime W) (contracts : Dict Contract) (path : String → String)
    (named : (s : String) (w : W) → (runtime.create s w).0 ≡ path s)
    (apart : (s t : String) → path s ≡ path t → s ≡ t) where
  run_one_total :
      (sid : String) (p : Progress runtime contracts)
      → elem sid (keys contracts) ≡ true
      → elem (path sid) p.seen_paths ≡ false
      → (q : Progress runtime contracts) × (run_one runtime contracts sid p ≡ ok q)
        × (q.seen_paths ≡ path sid ∷ p.seen_paths)
  unfolding run_one
  run_one_total sid p m unseen =
      let (c, e) = IsKnown-key (λ s. none) contracts sid m in
      let new : elem (runtime.create sid p.manager).0 p.seen_paths ≡ false =
        ap (λ x. elem x p.seen_paths) (named sid p.manager) ∙ unseen in
      let made = runtime.create sid p.manager in
      (
        record {
          started = p.started + 1;
          manager = made.1;
          seen_paths = made.0 ∷ p.seen_paths;
          done = insert sid (attempt runtime contracts p.started sid c made.0) p.done;
        },
        rw (e, new) refl,
        ap (λ x. x ∷ p.seen_paths) (named sid p.manager),
      )

  run_all_total :
      (sids : List String) (p : Progress runtime contracts)
      → no_twice sids ≡ true
      → ((s : String) → elem s sids ≡ true → elem s (keys contracts) ≡ true)
      → ((s : String) → elem s sids ≡ true → elem (path s) p.seen_paths ≡ false)
      → (q : Progress runtime contracts) × (run_all runtime contracts sids p ≡ ok q)
  unfolding run_all
  run_all_total [] p once known unseen = (p, refl)
  run_all_total (sid ∷ sids) p once known unseen =
      let first : elem sid (sid ∷ sids) ≡ true = ground (arith, eq_refl sid) in
      let (next, e, seen) = run_one_total sid p (known sid first) (unseen sid first) in
      let (q, f) =
        run_all_total sids next (ground arith) (λ s m. known s (ground arith))
          (λ s m. rw seen (elim (Bool-cases (path sid == path s)) [
            | inl same ↦
                let t = apart sid s ((eq_iff (path sid) (path s)).0 same) in
                let not_again : elem sid sids ≡ false = ground arith in
                cc (ap (λ x. elem x sids) t, m, not_again)
            | inr other ↦ rw other (unseen s (ground arith))
          ])) in
      (q, rw e f)

  run_all-append :
      (xs ys : List String) (p q : Progress runtime contracts)
      → run_all runtime contracts (xs ++ ys) p ≡ ok q
      → (mid : Progress runtime contracts) × (run_all runtime contracts xs p ≡ ok mid)
        × (run_all runtime contracts ys mid ≡ ok q)
  unfolding run_all
  run_all-append [] ys p q h = (p, refl, h)
  run_all-append (x ∷ xs) ys p q h =
      let (next, e, rest) = >>=-eq-ok (run_one runtime contracts x p) _ h in
      let (mid, f, last) = run_all-append xs ys next q rest in (mid, rw e f, last)

-- A wave of distinct steps that all have contracts is dispatched to the barrier, whatever the
-- injected functions answer or raise, when the worktree manager gives each step a path of its own.
pub dispatch_wave_total :
    {W : Type 0} (runtime : Runtime W) (contracts : Dict Contract) (path : String → String)
    (wave : Wave) (manager : W)
    → ((s : String) (w : W) → (runtime.create s w).0 ≡ path s)
    → ((s t : String) → path s ≡ path t → s ≡ t)
    → no_twice (all_steps wave) ≡ true
    → ((s : String) → elem s (all_steps wave) ≡ true → elem s (keys contracts) ≡ true)
    → (o : WaveResult × W) × (dispatch_wave runtime contracts wave manager ≡ ok o)
unfolding dispatch_wave
dispatch_wave_total runtime contracts path wave manager named apart once known =
    let start : Progress runtime contracts = record {
      started = 0;
      manager = manager;
      seen_paths = [];
      done = [];
    } in
    let (q, e) =
      run_all_total runtime contracts path named apart (all_steps wave) start once known
        (λ s m. refl) in
    let (mid, first, second) =
      run_all-append runtime contracts path named apart wave.parallel wave.serial start q e in
    ((record { index = wave.index; results = q.done }, q.manager), rw (first, second) refl)
