-- ===== src/Review/BackUpdate/Bounded.antt =====
-- `back_update` of epiphany_executor/review.py: one request in all its branches, and runs of requests
-- on one budget.
use mathlib.Core.Path.{subst}
use mathlib.Core.List.{append_assoc, append-nil}
use epiphany_executor.Prelude.{
  ℕ, ◌+◌, ◌≤◌, Bool, true, false, not, ◌&&◌, ◌≡◌, refl, sym, ◌∙◌, inl, inr, List, [], ◌∷◌, ◌++◌,
  Result, ok, err, none, some, ◌⊎◌, if◌then◌else◌, ltb, leb, length, all, ◌-◌, arith, Bool-cases,
}
use epiphany_executor.Value.{Fields}
use epiphany_executor.Ledger.{LedgerEntry, LedgerApi}
use epiphany_executor.Contract.{Contract}
use epiphany_executor.Scheduler.Static.{static_effect_class, is_external}
use epiphany_executor.Lifecycle.Store.{fold}
use epiphany_executor.Lifecycle.Store.Resume.{fold-append_other}
use epiphany_executor.Review.BackUpdate.{
  Budget, charge, correcting_entry, after_charge, back_update,
}

abbrev pub is_ok {ℓ} : {A : Type ℓ} → Result A → Bool
is_ok (ok a) = true
is_ok (err e) = false

-- What the code promises for one request: a correction within the depth and the total, of a step
-- whose effect is not externally irreversible.
abbrev pub permitted : Contract → ℕ → Budget → Bool
permitted target depth b =
    leb depth b.max_depth
    && (not (is_external (static_effect_class target)) && ltb b.spent b.max_total)

pub record Request : Type 0 where
  pub target : Contract
  pub delta : Fields
  pub at_depth : ℕ

module _ (api : LedgerApi) where
  open api use {Ledger, append, read, read-append}

  -- A back-update succeeds exactly when its depth is within the limit, the step's effect is not
  -- externally irreversible and the total is not spent. It then appends its one correcting entry,
  -- and otherwise leaves the ledger as it was.
  pub back_update-permitted :
      (target : Contract) (delta : Fields) (depth : ℕ) (b : Budget) (l : Ledger)
      → (is_ok (back_update api target delta depth b l).0 ≡ permitted target depth b)
        × (back_update api target delta depth b l).2 ≡ (
            if permitted target depth b
            then append l (correcting_entry target.step_id delta depth)
            else l)
  unfolding back_update charge after_charge
  back_update-permitted target delta depth b l = ground arith

  back_update-budget :
      (target : Contract) (delta : Fields) (depth : ℕ) (b : Budget) (l : Ledger)
      → let b' = (back_update api target delta depth b l).1 in
        (b'.max_depth ≡ b.max_depth)
        × (b'.max_total ≡ b.max_total)
        × (b.spent ≤ b'.spent)
        × ((permitted target depth b ≡ false) ⊎ (b'.spent ≡ b.spent + 1))
  unfolding back_update charge after_charge
  back_update-budget target delta depth b l = ground arith

  -- The requests of a run, one after the other on the one budget.
  unfoldable pub back_updates : List Request → Budget → Ledger → Budget × Ledger
  back_updates [] b l = (b, l)
  back_updates (q ∷ qs) b l =
      let done = back_update api q.target q.delta q.at_depth b l in back_updates qs done.1 done.2

  abbrev pub within : ℕ → LedgerEntry → Bool
  within max_depth e = elim e.depth [ none ↦ false | some d ↦ leb d max_depth ]

  -- What a run of requests wrote: entries within the limits, and no lifecycle entry.
  pub record Written (b : Budget) (l : Ledger) (l' : Ledger) : Type 0 where
    pub entries : List LedgerEntry
    pub appended : read l' ≡ read l ++ entries
    pub total : length entries ≤ b.max_total - b.spent
    pub shallow : all (within b.max_depth) entries ≡ true
    pub lifecycle : fold api l' ≡ fold api l

  Written-later :
      (b b' : Budget) (l l' : Ledger)
      → b'.max_depth ≡ b.max_depth
      → b'.max_total ≡ b.max_total
      → b.spent ≤ b'.spent
      → Written b' l l'
      → Written b l l'
  Written-later b b' l l' d t s w = record {
    entries = w.entries;
    appended = w.appended;
    total = omega (arith, w.total, t, s);
    shallow = rw d at w.shallow;
    lifecycle = w.lifecycle;
  }

  Written-cons :
      (b b' : Budget) (l l' : Ledger) (target : Contract) (delta : Fields) (depth : ℕ)
      → permitted target depth b ≡ true
      → b'.max_depth ≡ b.max_depth
      → b'.max_total ≡ b.max_total
      → b'.spent ≡ b.spent + 1
      → Written b' (append l (correcting_entry target.step_id delta depth)) l'
      → Written b l l'
  unfolding correcting_entry
  Written-cons b b' l l' target delta depth h d t s w =
      let e = correcting_entry target.step_id delta depth in
      record {
        entries = e ∷ w.entries;
        appended = w.appended ∙ rw (read-append l e) (append_assoc (read l) (e ∷ []) w.entries);
        total = ground (arith, w.total);
        shallow = ground (arith, w.shallow);
        lifecycle = w.lifecycle ∙ fold-append_other api l e refl;
      }

  -- Whatever the requests are, a run of back-updates on one budget appends at most as many entries
  -- as the budget had left, none of them deeper than the depth limit, and it changes no lifecycle
  -- that the ledger folds to.
  pub back_updates-Written :
      (qs : List Request) (b : Budget) (l : Ledger) → Written b l (back_updates qs b l).1
  unfolding back_updates
  back_updates-Written [] b l = record {
    entries = [];
    appended = sym (append-nil (read l));
    total = omega arith;
    shallow = refl;
    lifecycle = refl;
  }
  back_updates-Written (q ∷ qs) b l =
      let done = back_update api q.target q.delta q.at_depth b l in
      let facts = back_update-budget q.target q.delta q.at_depth b l in
      let result = back_update-permitted q.target q.delta q.at_depth b l in
      let last = (back_updates qs done.1 done.2).1 in
      let ih = back_updates-Written qs done.1 done.2 in
      elim (Bool-cases (permitted q.target q.at_depth b)) [
        | inl allowed ↦
            Written-cons b done.1 l last q.target q.delta q.at_depth allowed facts.0 facts.1
              (ground (arith, facts))
              (subst (λ m. Written done.1 m last) (result.1 ∙ rw allowed refl) ih)
        | inr refused ↦
            Written-later b done.1 l last facts.0 facts.1 facts.2
              (subst (λ m. Written done.1 m last) (result.1 ∙ rw refused refl) ih)
      ]
