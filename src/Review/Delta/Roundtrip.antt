-- ===== src/Review/Delta/Roundtrip.antt =====
-- `compute_state_delta` and `propagate_forward_delta` of epiphany_executor/review.py: reading a state
-- back from a delta, and the steps that a delta reaches.
use epiphany_executor.Prelude.{
  String, Bool, true, false, not, ◌&&◌, ◌≡◌, refl, sym, ◌∙◌, ap, inl, inr, Option, none, some, List,
  [], ◌∷◌, Dict, lookup, keys, elem, is_some, Distinct, elem-keys, if◌then◌else◌, ◌==◌, arith,
  eq_iff, Bool-cases,
}
use epiphany_executor.Scheduler.Dag.{Dag, prereqs}
use epiphany_executor.Review.Delta.{
  StateDelta, note, note_all, missing_keys, compute_state_delta, propagate_forward_delta,
}

-- A key's value after the step: whether it was removed, how it changed, what was added, and its
-- value before.
abbrev pub read_back {ℓ} : {V : Type ℓ} → Bool → Option (V × V) → Option V → Option V → Option V
read_back true c a was = none
read_back false (some (w, v)) a was = some v
read_back false none (some v) was = some v
read_back false none none was = was

abbrev pub after_value {ℓ} : {V : Type ℓ} → StateDelta V → String → Option V → Option V
after_value d k was = read_back (elem k d.removed) (lookup k d.changed) (lookup k d.added) was

module _ {ℓ} {V : Type ℓ} (same : V → V → Bool) where
  missing_keys-absent :
      (k : String) (before after : Dict V)
      → elem k (missing_keys same before after) ≡ true
      → elem k (keys after) ≡ false
  unfolding missing_keys
  missing_keys-absent k [] after h = cc
  missing_keys-absent k ((j, v) ∷ before) after h =
      ground (arith, missing_keys-absent k before after, eq_iff j k)

  missing_keys-covers :
      (k : String) (before after : Dict V)
      → elem k (keys after) ≡ false
      → elem k (missing_keys same before after) ≡ is_some (lookup k before)
  unfolding missing_keys
  missing_keys-covers k [] after h = refl
  missing_keys-covers k ((j, v) ∷ before) after h =
      ground (arith, missing_keys-covers k before after, eq_iff j k)

  -- What the delta says about one key, from its values before and after.
  abbrev changed_value : Option V → Option V → Option (V × V)
  changed_value was none = none
  changed_value none (some v) = none
  changed_value (some w) (some v) = if same w v then none else some (w, v)

  abbrev added_value : Option V → Option V → Option V
  added_value was none = none
  added_value none (some v) = some v
  added_value (some w) (some v) = none

  lookup-none : (k : String) (d : Dict V) → elem k (keys d) ≡ false → lookup k d ≡ none
  lookup-none k [] h = refl
  lookup-none k ((j, v) ∷ d) h = ground (arith, lookup-none k d)

  note_other :
      (j k : String) (v : V) (was : Option V) (d : StateDelta V)
      → (j == k) ≡ false
      → (lookup k (note same j v was d).changed ≡ lookup k d.changed)
        × (lookup k (note same j v was d).added ≡ lookup k d.added)
  note_other j k v none d h = ground arith
  note_other j k v (some w) d h = ground arith

  note_self :
      (j k : String) (v : V) (was : Option V) (d : StateDelta V)
      → (j == k) ≡ true
      → lookup k d.changed ≡ none
      → lookup k d.added ≡ none
      → (lookup k (note same j v was d).changed ≡ changed_value was (some v))
        × (lookup k (note same j v was d).added ≡ added_value was (some v))
  note_self j k v none d h p q = ground arith
  note_self j k v (some w) d h p q = ground arith

  note_removed :
      (j : String) (v : V) (was : Option V) (d : StateDelta V)
      → (note same j v was d).removed ≡ d.removed
  note_removed j v none d = refl
  note_removed j v (some w) d = ground arith

  note_all-removed :
      (before after : Dict V) (gone : List String)
      → (note_all same before after gone).removed ≡ gone
  unfolding note_all
  note_all-removed before [] gone = refl
  note_all-removed before ((j, v) ∷ after) gone =
      note_removed j v (lookup j before) _ ∙ note_all-removed before after gone

  lookup-note_all :
      (k : String) (before after : Dict V) (gone : List String)
      → Distinct after
      → (lookup k (note_all same before after gone).changed
          ≡ changed_value (lookup k before) (lookup k after))
        × (lookup k (note_all same before after gone).added
            ≡ added_value (lookup k before) (lookup k after))
  unfolding note_all
  lookup-note_all k before [] gone h = (refl, refl)
  lookup-note_all k before ((j, v) ∷ after) gone h =
      let d = note_all same before after gone in
      let ih = lookup-note_all k before after gone h.1 in
      elim (Bool-cases (j == k)) [
        | inl here ↦
            let e = (eq_iff j k).0 here in
            let absent = lookup-none k after (rw e at h.0) in
            let (p, q) =
              note_self j k v (lookup j before) d here (ih.0 ∙ rw absent refl)
                (ih.1 ∙ rw absent refl) in
            rw here (
              p ∙ ap (λ s. changed_value (lookup s before) (some v)) e,
              q ∙ ap (λ s. added_value (lookup s before) (some v)) e,
            )
        | inr there ↦
            let (p, q) = note_other j k v (lookup j before) d there in rw there (p ∙ ih.0, q ∙ ih.1)
      ]

  removed_key :
      (k : String) (before after : Dict V)
      → elem k (missing_keys same before after)
        ≡ (not (is_some (lookup k after)) && is_some (lookup k before))
  removed_key k before after = elim (Bool-cases (elem k (keys after))) [
    | inl kept ↦ ground (arith, missing_keys-absent k before after, elem-keys k after)
    | inr lost ↦ missing_keys-covers k before after lost ∙ ground (arith, elem-keys k after)
  ]

  read_back_lem :
      (was now : Option V)
      → ((v w : V) → same v w ≡ true → v ≡ w)
      → read_back
          (not (is_some now) && is_some was)
          (changed_value was now)
          (added_value was now)
          was
        ≡ now
  read_back_lem none none sound = refl
  read_back_lem (some w) none sound = refl
  read_back_lem none (some v) sound = refl
  read_back_lem (some w) (some v) sound = ground (arith, sound w v)

  read_back-alike :
      {b b' : Bool} {c c' : Option (V × V)} {a a' : Option V} (was : Option V)
      → b ≡ b'
      → c ≡ c'
      → a ≡ a'
      → read_back b c a was ≡ read_back b' c' a' was
  read_back-alike was p q r = λ i. read_back (p i) (q i) (r i) was

-- From the state before a step and the delta, the value of each key after the step is read back, if
-- the keys after the step are distinct and the test on values only accepts equal ones.
pub after_value-compute_state_delta {ℓ} :
    {V : Type ℓ} (same : V → V → Bool) (before after : Dict V) (k : String)
    → ((v w : V) → same v w ≡ true → v ≡ w)
    → Distinct after
    → after_value (compute_state_delta same before after) k (lookup k before) ≡ lookup k after
unfolding compute_state_delta
after_value-compute_state_delta same before after k sound h =
    let gone = missing_keys same before after in
    let (p, q) = lookup-note_all same k before after gone h in
    let removed =
      ap (elem k) (note_all-removed same before after gone) ∙ removed_key same k before after in
    read_back-alike same (lookup k before) removed p q
    ∙ read_back_lem same (lookup k before) (lookup k after) sound

elem-forward_absent :
    (s : String) (dag : Dag) (changed : String)
    → elem s (keys dag) ≡ false
    → elem s (propagate_forward_delta dag changed) ≡ false
unfolding propagate_forward_delta
elem-forward_absent s [] changed h = refl
elem-forward_absent s ((t, deps) ∷ dag) changed h =
    ground (arith, elem-forward_absent s dag changed)

-- A forward delta reaches exactly the steps that list the changed step among their prerequisites,
-- for a graph whose keys are distinct.
pub elem-propagate_forward_delta :
    (dag : Dag) (changed s : String)
    → Distinct dag
    → elem s (propagate_forward_delta dag changed) ≡ elem changed (prereqs dag s)
unfolding propagate_forward_delta
elem-propagate_forward_delta [] changed s h = refl
elem-propagate_forward_delta ((t, deps) ∷ dag) changed s h = elim (Bool-cases (t == s)) [
  | inl here ↦
      let e = (eq_iff t s).0 here in
      let absent = elem-forward_absent s dag changed (ap (λ x. elem x (keys dag)) (sym e) ∙ h.0) in
      rw here (ground arith)
  | inr other ↦ rw other (ground (arith, elem-propagate_forward_delta dag changed s h.1))
]
