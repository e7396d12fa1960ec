-- ===== src/Lifecycle/Store/Health.antt =====
-- `health_view` of epiphany_executor/telemetry.py beside `LifecycleStore.fold` and `accepted_steps`
-- of epiphany_executor/lifecycle.py, which read the same ledger.
use mathlib.Core.Path.{subst}
use epiphany_executor.Prelude.{
  ℕ, ◌+◌, ◌-◌, String, Bool, true, false, ◌≡◌, refl, sym, ◌∙◌, ap, inl, inr, Option, none, some,
  List, [], ◌∷◌, Result, ok, ◌>>=◌, >>=-eq-ok, ok_inj, Dict, insert, if◌then◌else◌, ◌==◌, eq_iff,
  arith, Bool-cases, length,
}
use epiphany_executor.Value.{Value, null, str, Fields}
use epiphany_executor.Ledger.{LedgerEntry, LedgerApi}
use epiphany_executor.Lifecycle.{
  LifecycleState, unstarted, in_flight, verified, accepted, blocked, failed, amended, awaiting,
  value,
}
use epiphany_executor.Lifecycle.Store.{
  RecoveryCursor, parse_state, has_kind, fold_entry, fold_node, fold_cursor, entry_state,
  fold_entries, accepted_ids, fold, accepted_steps,
}
use epiphany_executor.Telemetry.{
  HealthView, Tally, set_state, tally_kind, tally_verdict, verdict_of, no_tally, tally_entries,
  count_state, health_view,
}

-- What the health view keeps of the folded cursors.
abbrev states_of : Dict RecoveryCursor → Dict (Option String)
states_of [] = []
states_of ((sid, c) ∷ d) = (sid, some (value c.lifecycle_state)) ∷ states_of d

states_of-insert :
    (sid : String) (c : RecoveryCursor) (d : Dict RecoveryCursor)
    → states_of (insert sid c d) ≡ insert sid (some (value c.lifecycle_state)) (states_of d)
states_of-insert sid c [] = refl
states_of-insert sid c ((k, b) ∷ d) = ground (arith, states_of-insert sid c d)

named :
    (t s : String) (u st : LifecycleState) (rest : Result LifecycleState)
    → t ≡ value u
    → (rest ≡ ok st → s ≡ value st)
    → (if s == t then ok u else rest) ≡ ok st
    → s ≡ value st
named t s u st rest e next h = elim (Bool-cases (s == t)) [
  | inl same ↦ (eq_iff s t).0 same ∙ (e ∙ ap value (ok_inj (rw same at h)))
  | inr other ↦ next (rw other at h)
]

parse_state-eq-value : (s : String) (st : LifecycleState) → parse_state s ≡ ok st → s ≡ value st
unfolding parse_state
parse_state-eq-value s st = named "UNSTARTED" s unstarted st _ refl (
    named "IN_FLIGHT" s in_flight st _ refl (
      named "VERIFIED" s verified st _ refl (
        named "ACCEPTED" s accepted st _ refl (
          named "BLOCKED" s blocked st _ refl (
            named "FAILED" s failed st _ refl (
              named "AMENDED" s amended st _ refl
                (named "AWAITING" s awaiting st _ refl (λ h. absurd (cc h)))))))))

count_state-states_of :
    (d : Dict RecoveryCursor) → count_state "ACCEPTED" (states_of d) ≡ length (accepted_ids d)
unfolding count_state accepted_ids
count_state-states_of [] = refl
count_state-states_of ((sid, c) ∷ d) = ground (
  arith,
  count_state-states_of d,
  eq_iff (value c.lifecycle_state) "ACCEPTED",
  eq_iff "ACCEPTED" (value c.lifecycle_state),
)

entry_state-eq-value :
    (o : Option String) (st : LifecycleState) → entry_state o ≡ ok st → o ≡ some (value st)
unfolding entry_state
entry_state-eq-value none st h = absurd (cc h)
entry_state-eq-value (some s) st h = ap (λ t. some t) (parse_state-eq-value s st h)

fold_cursor-states_of :
    (sid : String) (e : LedgerEntry) (d d' : Dict RecoveryCursor)
    → fold_cursor sid e d ≡ ok d'
    → states_of d' ≡ insert sid e.lifecycle_state (states_of d)
unfolding fold_cursor
fold_cursor-states_of sid e d d' h =
    let (st, found, ends) = >>=-eq-ok (entry_state e.lifecycle_state) _ h in
    subst (λ x. states_of x ≡ insert sid e.lifecycle_state (states_of d)) (ok_inj ends)
      (states_of-insert sid _ d
        ∙ ap (λ o. insert sid o (states_of d))
            (sym (entry_state-eq-value e.lifecycle_state st found)))

tally_verdict-states : (v : Value) (t : Tally) → (tally_verdict v t).states ≡ t.states
tally_verdict-states (str v) t = ground arith
tally_verdict-states null t = refl
tally_verdict-states _ t = refl

tally_kind-states :
    (e : LedgerEntry) (t t' : Tally) (d d' : Dict RecoveryCursor)
    → t.states ≡ states_of d
    → fold_entry e d ≡ ok d'
    → tally_kind e t ≡ ok t'
    → t'.states ≡ states_of d'
unfolding fold_entry tally_kind
tally_kind-states e t t' d d' same h k = elim (Bool-cases (has_kind e "lifecycle-transition")) [
  | inl lifecycle ↦ by_node e.node (rw lifecycle at h) (rw lifecycle at k)
  | inr other ↦
      uncounted (has_kind e "back-update-correcting-delta")
        (has_kind e "sentinel-regression-forward-delta") (rw other at k)
      ∙ (same ∙ ap states_of (ok_inj (rw other at h)))
]
  where
    uncounted :
        (a b : Bool)
        → (if a
            then ok (record t { churn = t.churn + 1 })
            else if b
            then ok (record t { churn = t.churn + 1 })
            else ok t)
          ≡ ok t'
        → t'.states ≡ t.states
    uncounted true b p = sym (ap (λ (x : Tally). x.states) (ok_inj p))
    uncounted false true p = sym (ap (λ (x : Tally). x.states) (ok_inj p))
    uncounted false false p = sym (ap (λ (x : Tally). x.states) (ok_inj p))

    by_node :
        (n : Option String)
        → fold_node n e d ≡ ok d'
        → (set_state n e.lifecycle_state t.states >>= λ (states : Dict (Option String)).
            ok (record t { states = states }))
          ≡ ok t'
        → t'.states ≡ states_of d'
    by_node none h k = absurd (cc k)
    by_node (some sid) h k =
        sym (ap (λ (x : Tally). x.states) (ok_inj k))
        ∙ (ap (insert sid e.lifecycle_state) same ∙ sym (fold_cursor-states_of sid e d d' h))

tally_entries-states :
    (es : List LedgerEntry) (t t' : Tally) (d d' : Dict RecoveryCursor)
    → t.states ≡ states_of d
    → fold_entries es d ≡ ok d'
    → tally_entries es t ≡ ok t'
    → t'.states ≡ states_of d'
unfolding fold_entries tally_entries
tally_entries-states [] t t' d d' same h k =
    sym (ap (λ (x : Tally). x.states) (ok_inj k)) ∙ (same ∙ ap states_of (ok_inj h))
tally_entries-states (e ∷ es) t t' d d' same h k =
    let (d1, first, rest) = >>=-eq-ok (fold_entry e d) _ h in
    let (t1, tallied, others) = >>=-eq-ok (tally_kind e t) _ k in
    tally_entries-states es (tally_verdict (verdict_of e) t1) t' d1 d'
      (tally_verdict-states (verdict_of e) t1 ∙ tally_kind-states e t t1 d d1 same first tallied)
      rest others

module _ (api : LedgerApi) where
  open api use {Ledger, read}

  -- The health view of a ledger and the lifecycle store agree, where both can be read: the steps
  -- that the view counts as accepted are as many as `accepted_steps` lists, and what it estimates
  -- to remain is the rest of the total, none when more steps than the total are accepted.
  pub health_view-accepted_steps :
      (l : Ledger) (total : ℕ) (coverage mode : Value) (fanout : Fields) (ids : List String)
      (hv : HealthView)
      → accepted_steps api l ≡ ok ids
      → health_view (read l) total coverage mode fanout ≡ ok hv
      → (hv.accepted ≡ length ids) × (hv.est_remaining ≡ total - length ids)
  unfolding accepted_steps fold health_view
  health_view-accepted_steps l total coverage mode fanout ids hv h k =
      let (d, folded, listed) = >>=-eq-ok (fold_entries (read l) []) _ h in
      let (t, tallied, viewed) = >>=-eq-ok (tally_entries (read l) no_tally) _ k in
      let same = tally_entries-states (read l) no_tally t [] d refl folded tallied in
      let counted : count_state "ACCEPTED" t.states ≡ length ids =
        ap (count_state "ACCEPTED") same ∙ (count_state-states_of d ∙ ap length (ok_inj listed)) in
      subst (λ (x : HealthView). (x.accepted ≡ length ids) × (x.est_remaining ≡ total - length ids))
        (ok_inj viewed) (counted, ap (λ n. total - n) counted)
