-- ===== src/Benchmark/Clean.antt =====
-- The clean run of epiphany_executor/benchmark.py: the verification of epiphany_executor/dod.py and
-- the store of epiphany_executor/lifecycle.py together.
use Prim.Native.Nat.{max}
use mathlib.Core.Path.{subst}
use epiphany_executor.Prelude.{
  ℕ, zero, suc, ◌+◌, String, Bool, true, false, not, ◌&&◌, ◌||◌, ◌≡◌, refl, sym, ◌∙◌, ap, Option,
  none, some, List, [], ◌∷◌, ok, >>=-eq-ok, ok_inj, Dict, lookup, elem, keep, length, is_empty,
  if◌then◌else◌, ◌==◌, eq_iff, arith, Bool-cases, inl, inr, ◌⊎◌,
}
use epiphany_executor.Value.{Fields, field, end, str}
use epiphany_executor.Contract.{Contract}
use epiphany_executor.Ledger.{LedgerApi}
use epiphany_executor.Lifecycle.{in_flight, verified, accepted}
use epiphany_executor.Lifecycle.Store.{record_cursor, accepted_steps}
use epiphany_executor.Lifecycle.Store.Resume.{is_accepted}
use epiphany_executor.Lifecycle.Store.Abstract.{
  CursorMap, set_at, Represents, record_cursor-Represents, accepted_steps-Represents,
}
use epiphany_executor.Scheduler.Cohort.{found_or, contract_at}
use epiphany_executor.Dod.{
  pass, is_pass, dod_field, RunCheck, VerifierContext, Dod, for_step, assemble_dod, Verdict,
  verify_assembled, verify_dod,
}
use epiphany_executor.Dod.Criteria.{is_blocked, verify_dod-blocked}
use epiphany_executor.Dod.Decided.{juror_passes, jury_passes, verify_assembled-decision}
use epiphany_executor.Benchmark.{cursor, CleanRun, settle, clean_steps}

abbrev always : RunCheck
always n crit vctx = true

juror_passes-always :
    (vctx : VerifierContext) (n : ℕ) (crits : List String) → juror_passes always vctx n crits ≡ true
juror_passes-always vctx n [] = refl
juror_passes-always vctx n (c ∷ crits) = juror_passes-always vctx (n + 1) crits

jury_passes-always :
    (vctx : VerifierContext) (n : ℕ) (crits : List String) (k : ℕ)
    → jury_passes always vctx n crits k ≡ true
jury_passes-always vctx n crits zero = refl
jury_passes-always vctx n crits (suc k) =
    rw (juror_passes-always vctx n crits) (jury_passes-always vctx (n + length crits) crits k)

-- The contract has a criterion or an integration check.
abbrev pub has_checks : Contract → Bool
has_checks c =
    not (is_empty (dod_field c).acceptance_criteria && is_empty (dod_field c).integration_checks)

-- The contract of the step does.
abbrev pub has_criteria : Dict Contract → String → Bool
has_criteria contracts sid = elim (lookup sid contracts) [ none ↦ false | some c ↦ has_checks c ]

verify_assembled-always :
    (vctx : VerifierContext) (jury : ℕ) (dod : Dod)
    → is_pass (verify_assembled always vctx jury dod).decision
      ≡ not (is_blocked (verify_assembled always vctx jury dod).decision)
unfolding verify_assembled
verify_assembled-always vctx jury dod =
    elim (Bool-cases (is_empty dod.objective && is_empty dod.subjective)) [
      | inl empty ↦ rw empty refl
      | inr filled ↦
          let passes : (verify_assembled always vctx jury dod).decision ≡ pass =
            verify_assembled-decision always vctx jury dod filled
            ∙ rw (jury_passes-always vctx 0 dod.objective (max 1 jury)) refl in
          ap is_pass passes ∙ sym (ap (λ d. not (is_blocked d)) passes)
    ]

verify_dod-unblocked :
    (c : Contract) (artifacts : Fields) (jury : ℕ) (v : Verdict)
    → verify_dod always c artifacts [] jury ≡ ok v
    → is_pass v.decision ≡ not (is_blocked v.decision)
unfolding verify_dod
verify_dod-unblocked c artifacts jury v h =
    let (dod, assembled, last) = >>=-eq-ok (assemble_dod c) _ h in
    subst (λ (x : Verdict). is_pass x.decision ≡ not (is_blocked x.decision)) (ok_inj last)
      (verify_assembled-always (for_step c artifacts []) jury dod)

verify_dod-always :
    (c : Contract) (artifacts : Fields) (jury : ℕ) (v : Verdict)
    → verify_dod always c artifacts [] jury ≡ ok v
    → is_pass v.decision ≡ has_checks c
verify_dod-always c artifacts jury v h =
    verify_dod-unblocked c artifacts jury v h
    ∙ ap not (verify_dod-blocked always c artifacts [] jury v h)

found_or-has :
    (o : Option Contract) (c : Contract)
    → found_or o ≡ ok c
    → elim o [ none ↦ false | some d ↦ has_checks d ] ≡ has_checks c
found_or-has none c h = absurd (cc h)
found_or-has (some d) c h = ap has_checks (ok_inj h)

-- The cursors after one step, and after all of them.
abbrev settled_map : Bool → String → CursorMap → CursorMap
settled_map true sid f =
    set_at (cursor sid accepted) (set_at (cursor sid verified) (set_at (cursor sid in_flight) f))
settled_map false sid f = set_at (cursor sid in_flight) f

clean_map : Dict Contract → List String → CursorMap → CursorMap
clean_map contracts [] f = f
clean_map contracts (sid ∷ sids) f =
    clean_map contracts sids (settled_map (has_criteria contracts sid) sid f)

settled_map-accepted :
    (b : Bool) (sid s : String) (f : CursorMap)
    → is_accepted (settled_map b sid f s) ≡ (if sid == s then b else is_accepted (f s))
settled_map-accepted true sid s f = ground arith
settled_map-accepted false sid s f = ground arith

clean_map-accepted :
    (contracts : Dict Contract) (sids : List String) (f : CursorMap) (s : String)
    → is_accepted (clean_map contracts sids f s)
      ≡ (if elem s sids then has_criteria contracts s else is_accepted (f s))
unfolding clean_map
clean_map-accepted contracts [] f s = refl
clean_map-accepted contracts (sid ∷ sids) f s =
    clean_map-accepted contracts sids (settled_map (has_criteria contracts sid) sid f) s
    ∙ (ap (λ b. if elem s sids then has_criteria contracts s else b)
          (settled_map-accepted (has_criteria contracts sid) sid s f)
        ∙ nested (Bool-cases (sid == s)))
  where
    nested :
        (sid == s ≡ true) ⊎ (sid == s ≡ false)
        → (if elem s sids
            then has_criteria contracts s
            else if sid == s
            then has_criteria contracts sid
            else is_accepted (f s))
          ≡ (if sid == s || elem s sids then has_criteria contracts s else is_accepted (f s))
    nested (inl same) = ground (arith, same, ap (has_criteria contracts) ((eq_iff sid s).0 same))
    nested (inr other) = ground (arith, other)

module _ (api : LedgerApi) where
  open api use {Ledger}

  settle-Represents :
      (b : Bool) (sid : String) (r : CleanRun Ledger) (f : CursorMap)
      → Represents api r.ledger f
      → Represents api
          (settle api sid b
            (record r { ledger = record_cursor api r.ledger (cursor sid in_flight) })).ledger
          (settled_map b sid f)
  settle-Represents true sid r f h = record_cursor-Represents api _ _ (cursor sid accepted) (
      record_cursor-Represents api _ _ (cursor sid verified)
        (record_cursor-Represents api r.ledger f (cursor sid in_flight) h))
  settle-Represents false sid r f h =
      record_cursor-Represents api r.ledger f (cursor sid in_flight) h

  -- What the clean run counts, and what its ledger represents.
  abbrev Counted :
      Dict Contract → List String → CursorMap → CleanRun Ledger → CleanRun Ledger → Type 0
  Counted contracts sids f r r' =
      Represents api r'.ledger (clean_map contracts sids f)
      × (r'.accepted ≡ r.accepted + length (keep (has_criteria contracts) sids))
      × (r'.verify_passes ≡ r.verify_passes + length (keep (has_criteria contracts) sids))
      × (r'.verify_total ≡ r.verify_total + length sids)

  settle-accepted :
      (b : Bool) (sid : String) (r : CleanRun Ledger)
      → ((settle api sid b r).accepted ≡ (if b then r.accepted + 1 else r.accepted))
        × ((settle api sid b r).verify_passes
            ≡ (if b then r.verify_passes + 1 else r.verify_passes))
        × ((settle api sid b r).verify_total ≡ r.verify_total + 1)
  settle-accepted true sid r = (refl, refl, refl)
  settle-accepted false sid r = (refl, refl, refl)

  clean_steps-Counted :
      (contracts : Dict Contract) (jury : ℕ) (sids : List String) (r r' : CleanRun Ledger)
      (f : CursorMap)
      → Represents api r.ledger f
      → clean_steps api contracts jury sids r ≡ ok r'
      → Counted contracts sids f r r'
  unfolding clean_steps contract_at clean_map
  clean_steps-Counted contracts jury [] r r' f h e =
      subst (Counted contracts [] f r) (ok_inj e) (h, omega arith, omega arith, omega arith)
  clean_steps-Counted contracts jury (sid ∷ sids) r r' f h e =
      let (c, found, e1) = >>=-eq-ok (contract_at contracts sid) _ e in
      let (v, judged, e2) =
        >>=-eq-ok (verify_dod always c (field "diff" (str sid) end) [] jury) _ e1 in
      let passed : is_pass v.decision ≡ has_criteria contracts sid =
        verify_dod-always c (field "diff" (str sid) end) jury v judged
        ∙ sym (found_or-has (lookup sid contracts) c found) in
      let started = record r { ledger = record_cursor api r.ledger (cursor sid in_flight) } in
      let next = settle api sid (is_pass v.decision) started in
      let holds =
        subst (λ b. Represents api next.ledger (settled_map b sid f)) passed
          (settle-Represents (is_pass v.decision) sid r f h) in
      let (represents, a, p, t) =
        clean_steps-Counted contracts jury sids next r'
          (settled_map (has_criteria contracts sid) sid f) holds e2 in
      let (da, dp, dt) = settle-accepted (is_pass v.decision) sid started in
      (
        represents,
        ground (arith, a, da, passed),
        ground (arith, p, dp, passed),
        omega (arith, t, dt),
      )

  -- A clean run over a ledger that represents a map of cursors, if it returns, accepts as many steps
  -- as have a criterion or an integration check and verifies them all, and on resume the accepted
  -- steps are, of the run's steps, those with one, and of the others those accepted before.
  pub clean_steps-accepted :
      (contracts : Dict Contract) (jury : ℕ) (sids : List String) (r r' : CleanRun Ledger)
      (f : CursorMap)
      → Represents api r.ledger f
      → clean_steps api contracts jury sids r ≡ ok r'
      → (r'.accepted ≡ r.accepted + length (keep (has_criteria contracts) sids))
        × (r'.verify_total ≡ r.verify_total + length sids)
        × (ids : List String) × (accepted_steps api r'.ledger ≡ ok ids)
        × ((s : String)
            → elem s ids ≡ (if elem s sids then has_criteria contracts s else is_accepted (f s)))
  clean_steps-accepted contracts jury sids r r' f h e =
      let (represents, a, p, t) = clean_steps-Counted contracts jury sids r r' f h e in
      let (ids, listed, members) =
        accepted_steps-Represents api r'.ledger (clean_map contracts sids f) represents in
      (a, t, ids, listed, λ s. members s ∙ clean_map-accepted contracts sids f s)
