-- ===== src/Review/Sentinel/History.antt =====
-- Histories of calls on one `Sentinel` of epiphany_executor/review.py.
use epiphany_executor.Prelude.{
  ℕ, ◌+◌, String, Bool, true, false, ◌||◌, ◌≡◌, refl, sym, ◌∙◌, ap, inl, inr, List, [], ◌∷◌, ◌++◌,
  ◌==◌, elem, arith, eq_iff, Bool-cases,
}
use epiphany_executor.Ledger.{LedgerApi}
use epiphany_executor.Review.Sentinel.{
  Latch, latched_in, Sentinel, fresh, advance_epoch, forward_delta_of, Swept, sweep_steps, sweep,
}
use epiphany_executor.Review.Sentinel.Firing.{
  same_latch_refl, latches_of, deltas_of, Unique, Fires, Fires-silent, Fires-append,
  sweep_steps-Fires,
}

-- The calls a client makes on its one sentinel.
pub data Call : Type 0 where
  advance : Call
  sweeps : (reassert : ℕ → String → Bool) → (passed : List String) → (in_flight : Bool) → Call

module _ (api : LedgerApi) where
  open api use {Ledger, append, read, read-append}

  pub call : Call → Sentinel → Ledger → Swept api
  unfolding sweep
  call advance s l = record { sentinel = advance_epoch s; ledger = l; signals = [] }
  call (sweeps reassert passed in_flight) s l = sweep api reassert passed in_flight s l

  -- A history of calls, and all the signals it raised.
  unfoldable pub calls : List Call → Sentinel → Ledger → Swept api
  unfolding call
  calls [] s l = record { sentinel = s; ledger = l; signals = [] }
  calls (c ∷ cs) s l =
      let first = call c s l in
      let rest = calls cs first.sentinel first.ledger in
      record rest { signals = first.signals ++ rest.signals }

  call-Fires : (c : Call) (s : Sentinel) (l : Ledger) → Fires api s l (call c s l)
  unfolding call sweep advance_epoch
  call-Fires advance s l = Fires-silent api s (advance_epoch s) l refl
  call-Fires (sweeps reassert passed true) s l = Fires-silent api s s l refl
  call-Fires (sweeps reassert passed false) s l = sweep_steps-Fires api reassert 0 passed s l

  calls-Fires : (cs : List Call) (s : Sentinel) (l : Ledger) → Fires api s l (calls cs s l)
  unfolding calls
  calls-Fires [] s l = Fires-silent api s s l refl
  calls-Fires (c ∷ cs) s l =
      let first = call c s l in
      Fires-append api s l first (calls cs first.sentinel first.ledger) (call-Fires c s l)
        (calls-Fires cs first.sentinel first.ledger)

  -- Over any history of sweeps and epochs from a new sentinel, no step is signalled twice in one
  -- epoch, and the ledger holds what it held before and then the forward delta of each signal, in
  -- the order of the signals.
  pub calls_fire_once :
      (cs : List Call) (l : Ledger)
      → Unique (latches_of (calls cs fresh l).signals)
        × (read (calls cs fresh l).ledger ≡ read l ++ deltas_of (calls cs fresh l).signals)
  calls_fire_once cs l = let f = calls-Fires cs fresh l in (f.once, f.appended)

  sweep_steps_keeps :
      (k : Latch) (reassert : ℕ → String → Bool) (n : ℕ) (sids : List String) (s : Sentinel)
      (l : Ledger)
      → latched_in k s.latched ≡ true
      → latched_in k (sweep_steps api reassert n sids s l).sentinel.latched ≡ true
  sweep_steps_keeps k reassert n sids s l h =
      (sweep_steps-Fires api reassert n sids s l).latched k ∙ ground arith

  sweep_steps_misses_none :
      (sid : String) (reassert : ℕ → String → Bool)
      → ((n : ℕ) → reassert n sid ≡ false)
      → (n : ℕ) (sids : List String) (s : Sentinel) (l : Ledger) → elem sid sids ≡ true
      → latched_in
          (record { step = sid; at = s.epoch })
          (sweep_steps api reassert n sids s l).sentinel.latched
        ≡ true
  unfolding sweep_steps
  sweep_steps_misses_none sid reassert h n [] s l m = cc
  sweep_steps_misses_none sid reassert h n (x ∷ sids) s l m =
      let key : Latch = record { step = x; at = s.epoch } in
      let want : Latch = record { step = sid; at = s.epoch } in
      let s' = record s { latched = key ∷ s.latched } in
      let l' = append l (forward_delta_of x s.epoch) in
      elim (Bool-cases (reassert n x || latched_in key s.latched)) [
        | inl quiet ↦ rw quiet (elim (Bool-cases (x == sid)) [
          | inl here ↦
              let e = (eq_iff x sid).0 here in
              let known = ap (λ y. latched_in (record { step = y; at = s.epoch }) s.latched) e in
              let silent = ap (reassert n) e ∙ h n in
              sweep_steps_keeps want reassert (n + 1) sids s l (ground arith)
          | inr later ↦ sweep_steps_misses_none sid reassert h (n + 1) sids s l (ground arith)
        ])
        | inr fires ↦ rw fires (elim (Bool-cases (x == sid)) [
          | inl here ↦
              sweep_steps_keeps want reassert (n + 1) sids s' l'
                (ground (arith, same_latch_refl want, here))
          | inr later ↦ sweep_steps_misses_none sid reassert h (n + 1) sids s' l' (ground arith)
        ])
      ]

  -- A sweep between steps misses no regression: every passed step whose checks fail whenever they
  -- are asked is signalled by the sweep, if it was not latched in the current epoch before, and the
  -- sweep appends to the ledger exactly the forward deltas of its signals, in their order.
  pub sweep_misses_none :
      (sid : String) (reassert : ℕ → String → Bool) (passed : List String) (s : Sentinel)
      (l : Ledger)
      → elem sid passed ≡ true
      → ((n : ℕ) → reassert n sid ≡ false)
      → let r = sweep api reassert passed false s l in
        let want : Latch = record { step = sid; at = s.epoch } in
        ((latched_in want (latches_of r.signals) || latched_in want s.latched) ≡ true)
        × (read r.ledger ≡ read l ++ deltas_of r.signals)
  unfolding sweep
  sweep_misses_none sid reassert passed s l m h =
      let f = sweep_steps-Fires api reassert 0 passed s l in
      (
        sym (f.latched (record { step = sid; at = s.epoch }))
            ∙ sweep_steps_misses_none sid reassert h 0 passed s l m,
        f.appended,
      )
