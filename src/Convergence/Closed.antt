-- ===== src/Convergence/Closed.antt =====
-- The closure gate of epiphany_executor/convergence.py.
use mathlib.Core.Path.{subst}
use epiphany_executor.Prelude.{
  String, Bool, true, false, not, ◌&&◌, ◌||◌, ◌≡◌, refl, Option, none, some, List, [], ◌∷◌, ◌++◌,
  Result, ok, >>=-eq-ok, ok_inj, if◌then◌else◌, arith, any, or_else,
}
use epiphany_executor.Value.{Value, bool, float, Fields, end, field, get_or, has, truthy}
use epiphany_executor.Convergence.{
  Fraction, fraction_le, ClosureVerdict, floor_met, closed, Blocker, original_suite, session,
  below_floor, disposition, closure,
}

abbrev pub is_blocker : Blocker → Blocker → Bool
is_blocker original_suite original_suite = true
is_blocker session session = true
is_blocker below_floor below_floor = true
is_blocker _ _ = false

-- The disposition is the closing one, or it names the blocker.
abbrev pub names : Blocker → Option (List Blocker) → Bool
names b none = false
names b (some bs) = any (is_blocker b) bs

abbrev pub is_closing : Option (List Blocker) → Bool
is_closing none = true
is_closing (some bs) = false

-- The disposition of every verdict is the closing one exactly if the target is closed, and otherwise
-- it names exactly the conjuncts that are false.
pub disposition-names :
    (v : ClosureVerdict)
    → (is_closing (disposition v) ≡ closed v)
      × (names original_suite (disposition v) ≡ not v.original_suite_pass)
      × (names session (disposition v) ≡ not v.session_pass)
      × (names below_floor (disposition v) ≡ not (floor_met v))
unfolding disposition closed
disposition-names v = by_signals v.original_suite_pass v.session_pass (floor_met v)
  where
    by_signals :
        (a b c : Bool)
        → let d : Option (List Blocker) =
            if a && (b && c)
            then none
            else some (
                (if a then [] else original_suite ∷ [])
                ++ ((if b then [] else session ∷ []) ++ (if c then [] else below_floor ∷ []))) in
          (is_closing d ≡ (a && (b && c)))
          × (names original_suite d ≡ not a)
          × (names session d ≡ not b)
          × (names below_floor d ≡ not c)
    by_signals true true true = (refl, refl, refl, refl)
    by_signals true true false = (refl, refl, refl, refl)
    by_signals true false true = (refl, refl, refl, refl)
    by_signals true false false = (refl, refl, refl, refl)
    by_signals false true true = (refl, refl, refl, refl)
    by_signals false true false = (refl, refl, refl, refl)
    by_signals false false true = (refl, refl, refl, refl)
    by_signals false false false = (refl, refl, refl, refl)

truthy_default-has :
    (k : String) (d : Fields) → truthy (get_or k (bool false) d) ≡ true → has k d ≡ true
truthy_default-has k end h = absurd (cc h)
truthy_default-has k (field j v d) h = ground (arith, truthy_default-has k d)

module _ (to_float : Value → Result Fraction) where
  -- A target closes only on a record that has both signals, with a percentage that is no less than
  -- the caller's floor, whatever floor the record names.
  pub closure-recorded :
      (recorded : Option Fields) (floor : Fraction) (v : ClosureVerdict)
      → closure to_float recorded floor ≡ ok v
      → closed v ≡ true
      → ((has "original_suite_pass" (or_else recorded end)
            && has "session_pass" (or_else recorded end))
          ≡ true)
        × ((floor.below_zero || fraction_le floor v.forge_authored_pct) ≡ true)
  unfolding closure closed floor_met
  closure-recorded recorded floor v h shut =
      let d = or_else recorded end in
      let (pct, _, last) = >>=-eq-ok (to_float (get_or "forge_authored_pct" (float "0.0") d)) _ h in
      subst
        (λ (x : ClosureVerdict).
          closed x ≡ true
          → ((has "original_suite_pass" d && has "session_pass" d) ≡ true)
            × ((floor.below_zero || fraction_le floor x.forge_authored_pct) ≡ true))
        (ok_inj last)
        (λ shut. (
          ground (
            arith,
            shut,
            truthy_default-has "original_suite_pass" d,
            truthy_default-has "session_pass" d,
          ),
          ground (arith, shut),
        ))
        shut
