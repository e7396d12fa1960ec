-- ===== src/Benchmark/Recovered.antt =====
-- The injected fault of epiphany_executor/benchmark.py on the store of
-- epiphany_executor/lifecycle.py.
use Prim.Native.Nat.{◌/◌}
use epiphany_executor.Prelude.{
  ℕ, zero, suc, String, true, false, not, ◌&&◌, ◌≡◌, refl, ◌∙◌, ap, some, List, [], ◌∷◌, ok, ok_inj,
  Dict, keys, elem, elem-keys, is_some, length, if◌then◌else◌, ◌==◌, eq_iff, eq_refl, arith,
  Bool-cases, inl, inr,
}
use epiphany_executor.Ledger.{LedgerApi}
use epiphany_executor.Lifecycle.{in_flight, accepted}
use epiphany_executor.Lifecycle.Store.{RecoveryCursor, accepted_ids, fold, accepted_steps}
use epiphany_executor.Lifecycle.Store.Resume.{
  record_cursors, last_for, fold-record_last, accepted_steps_after_record,
}
use epiphany_executor.Benchmark.{cursor, nth, kill_point, fault_steps, recovered, recovery_check}

-- The cursors that the fault run records.
fault_cursors : String → List String → List RecoveryCursor
fault_cursors kill_at [] = []
fault_cursors kill_at (sid ∷ order) =
    let onward = fault_cursors kill_at order in
    if sid == kill_at
    then cursor sid in_flight ∷ []
    else cursor sid in_flight ∷ cursor sid accepted ∷ onward

last_for-fault_cursors :
    (kill_at : String) (order : List String)
    → elem kill_at order ≡ true
    → last_for kill_at (fault_cursors kill_at order) ≡ some (cursor kill_at in_flight)
unfolding fault_cursors
last_for-fault_cursors kill_at [] h = absurd (cc h)
last_for-fault_cursors kill_at (sid ∷ order) h = elim (Bool-cases (sid == kill_at)) [
  | inl same ↦ rw (same, same) (ap (λ x. some (cursor x in_flight)) ((eq_iff sid kill_at).0 same))
  | inr other ↦ rw (other, last_for-fault_cursors kill_at order (rw other at h)) refl
]

pub elem-nth :
    (order : List String) (n : ℕ) (s : String) → nth order n ≡ some s → elem s order ≡ true
elem-nth [] n s h = absurd (cc h)
elem-nth (x ∷ order) zero s h = let e : x ≡ s = cc h in rw (e, eq_refl s) refl
elem-nth (x ∷ order) (suc n) s h = ground (arith, elem-nth order n s h)

module _ (api : LedgerApi) where
  open api use {Ledger}

  fault_steps-cursors :
      (kill_at : String) (order : List String) (l : Ledger)
      → fault_steps api kill_at order l ≡ record_cursors api l (fault_cursors kill_at order)
  unfolding fault_steps fault_cursors
  fault_steps-cursors kill_at [] l = refl
  fault_steps-cursors kill_at (sid ∷ order) l = elim (Bool-cases (sid == kill_at)) [
    | inl same ↦ rw same refl
    | inr other ↦ rw other (fault_steps-cursors kill_at order _)
  ]

  recovered_of :
      (kill_at : String) (l : Ledger) (resumed : Dict RecoveryCursor) (already : List String)
      → fold api l ≡ ok resumed
      → accepted_steps api l ≡ ok already
      → recovered api kill_at l
        ≡ ok (not (kill_at == "") && (elem kill_at (keys resumed) && not (elem kill_at already)))
  unfolding recovered accepted_steps
  recovered_of kill_at l resumed already f g =
      let same : accepted_ids resumed ≡ already = ok_inj (rw f at g) in rw (f, same) refl

  -- On a ledger that folds, whatever it already holds, the recovery check of the benchmark succeeds
  -- for every order of steps in which the killed step has an id that is not empty.
  pub recovery_check-true :
      (order : List String) (l : Ledger) (d : Dict RecoveryCursor) (kill_at : String)
      → fold api l ≡ ok d
      → kill_point order ≡ some kill_at
      → kill_at == "" ≡ false
      → recovery_check api order l ≡ ok true
  unfolding recovery_check
  recovery_check-true order l d kill_at h at named =
      let cs = fault_cursors kill_at order in
      let (resumed, folded, looks) = fold-record_last api l cs d h in
      let (already, listed, members) = accepted_steps_after_record api l cs d h in
      let last =
        last_for-fault_cursors kill_at order (elem-nth order (length order / 2) kill_at at) in
      let known = elem-keys kill_at resumed ∙ ap is_some (looks kill_at) in
      let unfinished = members kill_at in
      rw (at, fault_steps-cursors kill_at order l)
        (recovered_of kill_at (record_cursors api l cs) resumed already folded listed
          ∙ rw (named, known, unfinished, last) refl)
