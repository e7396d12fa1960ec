-- ===== src/Convergence.antt =====
-- epiphany_executor/convergence.py: the closure gate. A percentage and a floor are fractions; the
-- measured one comes from `float(...)`, a parameter, which may be negative, or raise. Writing the
-- verdict's file is not modelled.
pub mod Closed
use Prim.Native.String.{◌++◌ as ◌+++◌}
use epiphany_executor.Prelude.{
  ℕ, ◌*◌, String, Bool, true, false, not, ◌&&◌, ◌||◌, Option, none, some, List, [], ◌∷◌, ◌++◌,
  Result, ok, ◌>>=◌, leb, if◌then◌else◌, or_else,
}
use epiphany_executor.Value.{Value, bool, float, Fields, end, get_or, truthy}

-- a number: is it below 0, and its size as a fraction
pub record Fraction : Type 0 where
  pub below_zero : Bool
  pub num : ℕ
  pub den : ℕ

-- `x <= y` for `x` that is not negative
abbrev pub fraction_le : Fraction → Fraction → Bool
fraction_le x y = not y.below_zero && leb (x.num * y.den) (y.num * x.den)

abbrev pub one : Fraction
one = record { below_zero = false; num = 1; den = 1 }

abbrev pub default_floor : Fraction
default_floor = record { below_zero = false; num = 90; den = 100 }

pub record ClosureVerdict : Type 0 where
  pub original_suite_pass : Bool
  pub session_pass : Bool
  pub forge_authored_pct : Fraction
  pub floor : Fraction

-- `pct >= floor`: a floor below 0 is met by every percentage that is not
unfoldable pub floor_met : ClosureVerdict → Bool
floor_met v =
    let pct = v.forge_authored_pct in
    (not pct.below_zero && fraction_le pct one) && (v.floor.below_zero || fraction_le v.floor pct)

unfoldable pub closed : ClosureVerdict → Bool
unfolding floor_met
closed v = v.original_suite_pass && (v.session_pass && floor_met v)

-- what blocks a closure, in the order of the message
pub data Blocker : Type 0 where
  original_suite session below_floor : Blocker

-- `none` for "closed-forge-convergence", else what stands behind "deferred:"
unfoldable pub disposition : ClosureVerdict → Option (List Blocker)
unfolding closed floor_met
disposition v =
    if closed v
    then none
    else some (
        (if v.original_suite_pass then [] else original_suite ∷ [])
        ++ ((if v.session_pass then [] else session ∷ [])
            ++ (if floor_met v then [] else below_floor ∷ [])))

module _ (to_float : Value → Result Fraction) where
  -- the record is `none` if its file is missing
  unfoldable pub closure : Option Fields → Fraction → Result ClosureVerdict
  closure recorded floor = do
    let data_ = or_else recorded end
    pct ← to_float (get_or "forge_authored_pct" (float "0.0") data_)
    ok (record {
      original_suite_pass = truthy (get_or "original_suite_pass" (bool false) data_);
      session_pass = truthy (get_or "session_pass" (bool false) data_);
      forge_authored_pct = pct;
      floor = floor;
    })
