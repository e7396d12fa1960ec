-- ===== src/Review/Sentinel/Firing.antt =====
-- What one sweep of the `Sentinel` of epiphany_executor/review.py does to its latch and the ledger.
use mathlib.Core.List.{append_assoc, append-nil}
use epiphany_executor.Prelude.{
  ℕ, ◌+◌, String, Bool, true, false, ◌||◌, ◌≡◌, refl, sym, ◌∙◌, ap, inl, inr, List, [], ◌∷◌, ◌++◌,
  arith, eq_iff, eq_refl, Bool-cases,
}
use epiphany_executor.Ledger.{LedgerEntry, LedgerApi}
use epiphany_executor.Review.Sentinel.{
  Latch, same_latch, latched_in, Sentinel, SentinelSignal, forward_delta_of, Swept, sweep_steps,
}

same_latch-eq : (a b : Latch) → same_latch a b ≡ true → a ≡ b
same_latch-eq a b h = ground (arith, eq_iff a.step b.step)

pub same_latch_refl : (a : Latch) → same_latch a a ≡ true
same_latch_refl a = ground (arith, eq_refl a.step)

abbrev pub latch_of : SentinelSignal → Latch
latch_of sig = record { step = sig.regressed_step; at = sig.signal_epoch }

abbrev pub latches_of : List SentinelSignal → List Latch
latches_of [] = []
latches_of (sig ∷ sigs) = latch_of sig ∷ latches_of sigs

abbrev pub deltas_of : List SentinelSignal → List LedgerEntry
deltas_of [] = []
deltas_of (sig ∷ sigs) = sig.forward_delta ∷ deltas_of sigs

-- No latch stands twice.
abbrev pub Unique : List Latch → Type 0
Unique [] = Unit
Unique (k ∷ ks) = (latched_in k ks ≡ false) × Unique ks

latched_in-append :
    (k : Latch) (xs ys : List Latch)
    → latched_in k (xs ++ ys) ≡ (latched_in k xs || latched_in k ys)
latched_in-append k [] ys = refl
latched_in-append k (x ∷ xs) ys = ground (arith, latched_in-append k xs ys)

latches_of-append :
    (xs ys : List SentinelSignal) → latches_of (xs ++ ys) ≡ latches_of xs ++ latches_of ys
latches_of-append [] ys = refl
latches_of-append (x ∷ xs) ys = ap (λ l. latch_of x ∷ l) (latches_of-append xs ys)

deltas_of-append :
    (xs ys : List SentinelSignal) → deltas_of (xs ++ ys) ≡ deltas_of xs ++ deltas_of ys
deltas_of-append [] ys = refl
deltas_of-append (x ∷ xs) ys =
    ap (λ (l : List LedgerEntry). x.forward_delta ∷ l) (deltas_of-append xs ys)

Unique-append :
    (xs ys : List Latch)
    → Unique xs
    → Unique ys
    → ((k : Latch) → latched_in k xs ≡ true → latched_in k ys ≡ false)
    → Unique (xs ++ ys)
Unique-append [] ys u v apart = v
Unique-append (x ∷ xs) ys u v apart = (
  latched_in-append x xs ys ∙ ground (arith, u.0, apart x, same_latch_refl x),
  Unique-append xs ys u.1 v (λ k h. apart k (ground arith)),
)

module _ (api : LedgerApi) where
  open api use {Ledger, append, read, read-append}

  -- What a part of the history did to the latch and the ledger.
  pub record Fires (s : Sentinel) (l : Ledger) (r : Swept api) : Type 0 where
    pub once : Unique (latches_of r.signals)
    pub fresh_only :
        (k : Latch) → latched_in k (latches_of r.signals) ≡ true → latched_in k s.latched ≡ false
    pub latched :
        (k : Latch)
        → latched_in k r.sentinel.latched
          ≡ (latched_in k (latches_of r.signals) || latched_in k s.latched)
    pub appended : read r.ledger ≡ read l ++ deltas_of r.signals

  Fires-cons :
      (sid : String) (s : Sentinel) (l : Ledger) (rest : Swept api)
      → let key : Latch = record { step = sid; at = s.epoch } in
        let fd = forward_delta_of sid s.epoch in
        latched_in key s.latched ≡ false
        → Fires (record s { latched = key ∷ s.latched }) (append l fd) rest
        → Fires s l (record rest {
          signals =
              record { regressed_step = sid; signal_epoch = s.epoch; forward_delta = fd }
              ∷ rest.signals;
        })
  Fires-cons sid s l rest quiet f =
      let key : Latch = record { step = sid; at = s.epoch } in
      record {
        once = (ground (arith, f.fresh_only key, same_latch_refl key), f.once);
        fresh_only = λ k h. elim (Bool-cases (same_latch key k)) [
          | inl e ↦ rw (same_latch-eq key k e) at quiet
          | inr ne ↦ ground (arith, f.fresh_only k)
        ];
        latched = λ k. f.latched k ∙ ground arith;
        appended =
            f.appended
            ∙ rw (read-append l (forward_delta_of sid s.epoch)) (append_assoc (read l) _ _);
      }

  pub Fires-silent :
      (s s' : Sentinel) (l : Ledger)
      → s'.latched ≡ s.latched
      → Fires s l (record { sentinel = s'; ledger = l; signals = [] })
  Fires-silent s s' l e = record {
    once = tt;
    fresh_only = λ k h. cc;
    latched = λ k. ap (latched_in k) e;
    appended = sym (append-nil (read l));
  }

  pub sweep_steps-Fires :
      (reassert : ℕ → String → Bool) (n : ℕ) (sids : List String) (s : Sentinel) (l : Ledger)
      → Fires s l (sweep_steps api reassert n sids s l)
  unfolding sweep_steps
  sweep_steps-Fires reassert n [] s l = Fires-silent s s l refl
  sweep_steps-Fires reassert n (sid ∷ sids) s l =
      let key : Latch = record { step = sid; at = s.epoch } in
      elim (Bool-cases (reassert n sid || latched_in key s.latched)) [
        | inl quiet ↦ rw quiet (sweep_steps-Fires reassert (n + 1) sids s l)
        | inr fires ↦
            rw fires
              (Fires-cons sid s l _ (ground arith) (sweep_steps-Fires reassert (n + 1) sids _ _))
      ]

  pub Fires-append :
      (s : Sentinel) (l : Ledger) (r q : Swept api)
      → Fires s l r
      → Fires r.sentinel r.ledger q
      → Fires s l (record q { signals = r.signals ++ q.signals })
  Fires-append s l r q f g = record {
    once = rw (latches_of-append r.signals q.signals) (
        Unique-append (latches_of r.signals) (latches_of q.signals) f.once g.once
          (λ k h. ground (arith, f.latched k, g.fresh_only k)));
    fresh_only = λ k h. ground (
      arith,
      h,
      latches_of-append r.signals q.signals,
      latched_in-append k (latches_of r.signals) (latches_of q.signals),
      f.fresh_only k,
      g.fresh_only k,
      f.latched k,
    );
    latched = λ k.
        rw
          (
            latches_of-append r.signals q.signals,
            latched_in-append k (latches_of r.signals) (latches_of q.signals),
          )
          (ground (arith, g.latched k, f.latched k));
    appended =
        g.appended
        ∙ rw (f.appended, deltas_of-append r.signals q.signals)
            (append_assoc (read l) (deltas_of r.signals) (deltas_of q.signals));
  }
