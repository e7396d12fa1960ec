-- ===== src/Effector/Staged.antt =====
-- The results of epiphany_executor/effector.py at the barrier.
use mathlib.Core.Path.{subst}
use mathlib.Core.List.{append_assoc, append-nil}
use epiphany_executor.Prelude.{
  String, Bool, true, false, not, ◌&&◌, ◌||◌, ◌≡◌, refl, ◌∙◌, ap, Option, List, [], ◌∷◌, ◌++◌, ok,
  >>=-eq-ok, ok_inj, guard, assertion_error, Dict, insert, keys, elem, elem-append, any, ◌==◌,
  eq_iff, arith,
}
use epiphany_executor.Value.{Fields}
use epiphany_executor.Contract.{Contract}
use epiphany_executor.Scheduler.Cohort.{contract_at}
use epiphany_executor.Scheduler.Waves.{Wave, all_steps}
use epiphany_executor.Effector.{
  Answer, raised, returned, StepResult, WaveResult, values, any_committed, paths, worktrees,
  Runtime, foreground_result, background_result, result_of, attempt, Progress, run_one, run_all,
  dispatch_wave,
}

-- No text stands twice.
abbrev pub no_twice : List String → Bool
no_twice [] = true
no_twice (x ∷ xs) = not (elem x xs) && no_twice xs

abbrev pub some_committed : Dict StepResult → Bool
some_committed d = any (λ (s : StepResult). s.committed) (values d)

elem-paths-insert :
    (x k : String) (s : StepResult) (d : Dict StepResult)
    → elem x (paths (insert k s d)) ≡ true
    → (s.worktree == x || elem x (paths d)) ≡ true
elem-paths-insert x k s [] h = ground arith
elem-paths-insert x k s ((j, t) ∷ d) h = ground (arith, elem-paths-insert x k s d)

no_twice-paths-insert :
    (k : String) (s : StepResult) (d : Dict StepResult)
    → elem s.worktree (paths d) ≡ false
    → no_twice (paths d) ≡ true
    → no_twice (paths (insert k s d)) ≡ true
no_twice-paths-insert k s [] a h = refl
no_twice-paths-insert k s ((j, t) ∷ d) a h = ground (
  arith,
  no_twice-paths-insert k s d,
  elem-paths-insert t.worktree k s d,
  eq_iff t.worktree s.worktree,
  eq_iff s.worktree t.worktree,
)

some_committed-insert :
    (k : String) (s : StepResult) (d : Dict StepResult)
    → s.committed ≡ false
    → some_committed d ≡ false
    → some_committed (insert k s d) ≡ false
some_committed-insert k s [] c h = ground arith
some_committed-insert k s ((j, t) ∷ d) c h = ground (arith, some_committed-insert k s d)

elem-keys-insert :
    (k x : String) (s : StepResult) (d : Dict StepResult)
    → elem x (keys (insert k s d)) ≡ (k == x || elem x (keys d))
elem-keys-insert k x s [] = refl
elem-keys-insert k x s ((j, t) ∷ d) = ground (arith, elem-keys-insert k x s d, eq_iff j k)

result_of-staged :
    (sid wt : String) (kind : Answer Bool) (joined answer : Answer (Option Fields))
    → ((result_of sid wt kind joined answer).committed ≡ false)
      × ((result_of sid wt kind joined answer).worktree ≡ wt)
unfolding result_of foreground_result background_result
result_of-staged sid wt (raised message) joined answer = (refl, refl)
result_of-staged sid wt (returned true) (raised message) answer = (refl, refl)
result_of-staged sid wt (returned true) (returned a) answer = (refl, refl)
result_of-staged sid wt (returned false) joined (raised message) = (refl, refl)
result_of-staged sid wt (returned false) joined (returned a) = (refl, refl)

module _ {W : Type 0} (runtime : Runtime W) (contracts : Dict Contract) where
  -- What holds between two rounds, when the steps of `sids` were run.
  record Barrier (sids : List String) (p : Progress {W = W} runtime contracts) : Type 0 where
    none_committed : some_committed p.done ≡ false
    own_worktrees : no_twice (paths p.done) ≡ true
    seen : (x : String) → elem x (paths p.done) ≡ true → elem x p.seen_paths ≡ true
    collected : (s : String) → elem s (keys p.done) ≡ elem s sids

  run_one-Barrier :
      (sids : List String) (sid : String) (p q : Progress runtime contracts)
      → Barrier sids p
      → run_one runtime contracts sid p ≡ ok q
      → Barrier (sids ++ sid ∷ []) q
  unfolding run_one attempt
  run_one-Barrier sids sid p q b h =
      let (c, e, h1) = >>=-eq-ok (contract_at contracts sid) _ h in
      let made = runtime.create sid p.manager in
      let (u, fresh, h2) =
        >>=-eq-ok (guard (not (elem made.0 p.seen_paths)) assertion_error) _ h1 in
      let r = attempt runtime contracts p.started sid c made.0 in
      let (uncommitted, own) : (r.committed ≡ false) × (r.worktree ≡ made.0) =
        result_of-staged sid made.0 _ _ _ in
      let unseen : elem made.0 p.seen_paths ≡ false = ground arith in
      subst (Barrier (sids ++ sid ∷ [])) (ok_inj h2) (record {
        none_committed = some_committed-insert sid r p.done uncommitted b.none_committed;
        own_worktrees =
            no_twice-paths-insert sid r p.done (rw own (ground (arith, b.seen made.0)))
              b.own_worktrees;
        seen = λ x m. ground (arith, elem-paths-insert x sid r p.done m, own, b.seen x);
        collected = λ s.
            elem-keys-insert sid s r p.done
            ∙ ground (arith, b.collected s, elem-append s sids (sid ∷ []));
      })

  run_all-Barrier :
      (before sids : List String) (p q : Progress runtime contracts)
      → Barrier before p
      → run_all runtime contracts sids p ≡ ok q
      → Barrier (before ++ sids) q
  unfolding run_all
  run_all-Barrier before [] p q b h = rw (append-nil before) (subst (Barrier before) (ok_inj h) b)
  run_all-Barrier before (sid ∷ sids) p q b h =
      let (next, e, rest) = >>=-eq-ok (run_one runtime contracts sid p) _ h in
      subst (λ xs. Barrier xs q) (append_assoc before (sid ∷ []) sids)
        (run_all-Barrier (before ++ sid ∷ []) sids next q (run_one-Barrier before sid p next b e)
          rest)

-- When a wave is dispatched, whatever the injected functions do and whether they raise or not, no
-- result at the barrier is committed, no two results share a worktree, and exactly the steps of the
-- wave, of its cohort and of its serial residue, have a result.
pub dispatch_wave-Barrier :
    {W : Type 0} (runtime : Runtime W) (contracts : Dict Contract) (wave : Wave) (manager : W)
    (r : WaveResult) (after : W)
    → dispatch_wave runtime contracts wave manager ≡ ok (r, after)
    → (any_committed r ≡ false)
      × (no_twice (worktrees r) ≡ true)
      × ((s : String) → elem s (keys r.results) ≡ elem s (all_steps wave))
unfolding dispatch_wave any_committed
dispatch_wave-Barrier runtime contracts wave manager r after h =
    let start : Progress runtime contracts = record {
      started = 0;
      manager = manager;
      seen_paths = [];
      done = [];
    } in
    let (cohort, e, h1) = >>=-eq-ok (run_all runtime contracts wave.parallel start) _ h in
    let (p, f, h2) = >>=-eq-ok (run_all runtime contracts wave.serial cohort) _ h1 in
    let first =
      run_all-Barrier runtime contracts [] wave.parallel start cohort
        (record {
          none_committed = refl;
          own_worktrees = refl;
          seen = λ x m. cc;
          collected = λ s. refl;
        })
        e in
    let b = run_all-Barrier runtime contracts wave.parallel wave.serial cohort p first f in
    subst
      (λ (o : WaveResult).
        (any_committed o ≡ false)
        × (no_twice (worktrees o) ≡ true)
        × ((s : String) → elem s (keys o.results) ≡ elem s (all_steps wave)))
      (ap (λ (x : WaveResult × _). x.0) (ok_inj h2))
      (b.none_committed, b.own_worktrees, b.collected)
