-- ===== src/Speculate/Dry.antt =====
-- Which dry runs stand behind the predictions of epiphany_executor/speculate.py.
use mathlib.Core.Path.{subst}
use epiphany_executor.Prelude.{
  String, false, not, ◌≡◌, refl, Option, some, List, [], ◌∷◌, Result, ok, err, guard, runtime_error,
  >>=-eq-ok, ok_inj, Dict, insert, lookup, ◌==◌, eq_iff, Bool-cases, inl, inr,
}
use epiphany_executor.Value.{Fields, get, truthy, iterate_or_empty}
use epiphany_executor.Contract.{Contract}
use epiphany_executor.Scheduler.Cohort.{contract_at}
use epiphany_executor.Coverage.{texts_of}
use epiphany_executor.Speculate.{
  Prediction, has_failed, usable, predict, prediction_of, predict_all,
}

module _ (canonical : String → Option String) (dry_run_fn : String → Contract → Result Fields)
    (contracts : Dict Contract) where
  -- The dry run of the step on its contract returned, and reported no committed ledger entry.
  abbrev pub RanSilently : String → Type 0
  RanSilently sid =
      (c : Contract) × (out : Fields) × (contract_at contracts sid ≡ ok c)
      × (dry_run_fn sid c ≡ ok out)
      × (truthy (get "committed_ledger" out) ≡ false)

  -- A prediction without an error comes from such a dry run.
  abbrev Backed : Prediction → Type 0
  Backed p = has_failed p ≡ false → RanSilently p.step_id

  abbrev pub AllBacked : Dict Prediction → Type 0
  AllBacked [] = Unit
  AllBacked ((sid, p) ∷ ps) = Backed p × AllBacked ps

  AllBacked-insert :
      (sid : String) (p : Prediction) (ps : Dict Prediction)
      → Backed p
      → AllBacked ps
      → AllBacked (insert sid p ps)
  AllBacked-insert sid p [] h hs = (h, tt)
  AllBacked-insert sid p ((k, q) ∷ ps) h hs = elim (Bool-cases (k == sid)) [
    | inl same ↦ rw same (h, hs.1)
    | inr other ↦ rw other (hs.0, AllBacked-insert sid p ps h hs.1)
  ]

  guard-quiet :
      (out : Fields) {u : Unit}
      → guard (not (truthy (get "committed_ledger" out))) runtime_error ≡ ok u
      → truthy (get "committed_ledger" out) ≡ false
  guard-quiet out h = elim (Bool-cases (truthy (get "committed_ledger" out))) [
    | inl loud ↦ absurd (cc (rw loud at h))
    | inr quiet ↦ quiet
  ]

  predict-Backed :
      (sid : String) (c : Contract)
      → contract_at contracts sid ≡ ok c
      → Backed (prediction_of canonical dry_run_fn sid (predict canonical dry_run_fn sid c))
  unfolding predict
  predict-Backed sid c at = by_result (predict canonical dry_run_fn sid c) refl
    where
      by_result :
          (r : Result Prediction)
          → predict canonical dry_run_fn sid c ≡ r
          → Backed (prediction_of canonical dry_run_fn sid r)
      by_result (err e) h = λ failed. absurd (cc failed)
      by_result (ok p) h =
          let (out, ran, h1) = >>=-eq-ok (dry_run_fn sid c) _ h in
          let (_, clean, h2) =
            >>=-eq-ok (guard (not (truthy (get "committed_ledger" out))) runtime_error) _ h1 in
          let (found, _, h3) = >>=-eq-ok (iterate_or_empty (get "predicted_outputs" out)) _ h2 in
          let (texts, _, h4) = >>=-eq-ok (texts_of found) _ h3 in
          subst Backed (ok_inj h4) (λ _. (c, out, at, ran, guard-quiet out clean))

  pub predict_all-AllBacked :
      (sids : List String) (ps qs : Dict Prediction)
      → AllBacked ps
      → predict_all canonical dry_run_fn contracts sids ps ≡ ok qs
      → AllBacked qs
  unfolding predict_all
  predict_all-AllBacked [] ps qs h e = subst AllBacked (ok_inj e) h
  predict_all-AllBacked (sid ∷ sids) ps qs h e =
      let (c, at, rest) = >>=-eq-ok (contract_at contracts sid) _ e in
      let p = prediction_of canonical dry_run_fn sid (predict canonical dry_run_fn sid c) in
      predict_all-AllBacked sids (insert sid p ps) qs
        (AllBacked-insert sid p ps (predict-Backed sid c at) h) rest

  pub usable-RanSilently :
      (ps : Dict Prediction) (a : String) (oa : List String)
      → AllBacked ps
      → lookup a (usable ps) ≡ some oa
      → RanSilently a
  usable-RanSilently [] a oa h e = absurd (cc e)
  usable-RanSilently ((sid, p) ∷ ps) a oa h e = elim (Bool-cases (has_failed p)) [
    | inl failed ↦ usable-RanSilently ps a oa h.1 (rw failed at e)
    | inr fine ↦ elim (Bool-cases (p.step_id == a)) [
      | inl same ↦ subst RanSilently ((eq_iff p.step_id a).0 same) (h.0 fine)
      | inr other ↦ usable-RanSilently ps a oa h.1 (rw (fine, other) at e)
    ]
  ]
