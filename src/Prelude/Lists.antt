-- ===== src/Prelude/Lists.antt =====
-- Lists measured by native numbers, and Boolean tests on lists of texts.
use Prim.Native.Nat.{ℕ, suc, ◌+◌, ◌<◌}
use Prim.Native.String.{String}
use mathlib.Core.Path.{◌≡◌, refl}
use mathlib.Core.Bool.{Bool, true, false, not, ◌&&◌, ◌||◌}
use mathlib.Core.Logic.{inl, inr}
use mathlib.Core.List.{List, [], ◌∷◌, ◌++◌}
use native.Mathlib.Omega.{arith}
use text.Mathlib.Text.{◌==◌}
use text.Mathlib.TextEquality.{eq_iff}
use text.Mathlib.TextPositions.{eq_refl}
use epiphany_executor.Prelude.Tests.{if◌then◌else◌, Bool-cases, &&-eq-true}

module _ {ℓ} {A : Type ℓ} where
  abbrev pub length : List A → ℕ
  length [] = 0
  length (x ∷ xs) = suc (length xs)

  pub length-append : (xs ys : List A) → length (xs ++ ys) ≡ length xs + length ys
  length-append [] ys = omega arith
  length-append (x ∷ xs) ys = omega (arith, length-append xs ys)

  -- `all(p(x) for x in xs)` and `any(p(x) for x in xs)`
  abbrev pub all : (A → Bool) → List A → Bool
  all p [] = true
  all p (x ∷ xs) = p x && all p xs

  abbrev pub any : (A → Bool) → List A → Bool
  any p [] = false
  any p (x ∷ xs) = p x || any p xs

  -- `[x for x in xs if p(x)]`
  abbrev pub keep : (A → Bool) → List A → List A
  keep p [] = []
  keep p (x ∷ xs) = let rest = keep p xs in if p x then x ∷ rest else rest

  -- `not xs`
  abbrev pub is_empty : List A → Bool
  is_empty [] = true
  is_empty (x ∷ xs) = false

  pub keep-append : (p : A → Bool) (xs ys : List A) → keep p (xs ++ ys) ≡ keep p xs ++ keep p ys
  keep-append p [] ys = refl
  keep-append p (x ∷ xs) ys = ground (arith, keep-append p xs ys)

  pub any-append : (p : A → Bool) (xs ys : List A) → any p (xs ++ ys) ≡ (any p xs || any p ys)
  any-append p [] ys = refl
  any-append p (x ∷ xs) ys = ground (arith, any-append p xs ys)

  pub all-append : (p : A → Bool) (xs ys : List A) → all p (xs ++ ys) ≡ (all p xs && all p ys)
  all-append p [] ys = refl
  all-append p (x ∷ xs) ys = ground (arith, all-append p xs ys)

  pub length-keep_add :
      (p : A → Bool) (xs : List A)
      → length (keep p xs) + length (keep (λ x. not (p x)) xs) ≡ length xs
  length-keep_add p [] = refl
  length-keep_add p (x ∷ xs) = ground (arith, length-keep_add p xs)

  pub all-keep : (p q : A → Bool) (xs : List A) → all p xs ≡ true → all p (keep q xs) ≡ true
  all-keep p q [] h = refl
  all-keep p q (x ∷ xs) h = ground (arith, all-keep p q xs)

-- `s in xs`
abbrev pub elem : String → List String → Bool
elem s [] = false
elem s (x ∷ xs) = x == s || elem s xs

-- how often `s` stands in `xs`
abbrev pub count : String → List String → ℕ
count s [] = 0
count s (x ∷ xs) = (if x == s then 1 else 0) + count s xs

pub elem-append : (s : String) (xs ys : List String) → elem s (xs ++ ys) ≡ (elem s xs || elem s ys)
elem-append s [] ys = refl
elem-append s (x ∷ xs) ys = ground (arith, elem-append s xs ys)

pub count-append : (s : String) (xs ys : List String) → count s (xs ++ ys) ≡ count s xs + count s ys
count-append s [] ys = omega arith
count-append s (x ∷ xs) ys = omega (arith, count-append s xs ys)

pub elem-eq-true-count : (s : String) (xs : List String) → elem s xs ≡ true → 0 < count s xs
elem-eq-true-count s [] h = ground arith
elem-eq-true-count s (x ∷ xs) h = ground (arith, elem-eq-true-count s xs)

pub count-pos-elem : (s : String) (xs : List String) → 0 < count s xs → elem s xs ≡ true
count-pos-elem s [] h = ground arith
count-pos-elem s (x ∷ xs) h = ground (arith, count-pos-elem s xs)

-- A test that holds on a list holds of each of its members.
pub all-elem :
    (p : String → Bool) (s : String) (xs : List String)
    → all p xs ≡ true
    → elem s xs ≡ true
    → p s ≡ true
all-elem p s [] h m = ground arith
all-elem p s (x ∷ xs) h m = elim (Bool-cases (x == s)) [
  | inl here ↦ rw ((eq_iff x s).0 here) at ((&&-eq-true (p x) (all p xs) h).0)
  | inr there ↦ all-elem p s xs (&&-eq-true (p x) (all p xs) h).1 (ground arith)
]

-- The set `{x for x in xs}` as a list with no repetition.
abbrev pub dedup : List String → List String
dedup [] = []
dedup (x ∷ xs) = let rest = dedup xs in if elem x rest then rest else x ∷ rest

pub elem-dedup : (s : String) (xs : List String) → elem s (dedup xs) ≡ elem s xs
elem-dedup s [] = refl
elem-dedup s (x ∷ xs) = ground (arith, elem-dedup s xs, elem-dedup x xs, eq_iff x s)

-- `xs.isdisjoint(ys)`
abbrev pub disjoint : List String → List String → Bool
disjoint xs ys = all (λ x. not (elem x ys)) xs

-- `xs <= ys` on sets
abbrev pub subset : List String → List String → Bool
subset xs ys = all (λ x. elem x ys) xs

pub count-zero_of_absent : (s : String) (xs : List String) → elem s xs ≡ false → count s xs ≡ 0
count-zero_of_absent s [] h = refl
count-zero_of_absent s (x ∷ xs) h = ground (arith, count-zero_of_absent s xs)

pub subset-elem :
    (s : String) (xs ys : List String) → subset xs ys ≡ true → elem s xs ≡ true → elem s ys ≡ true
subset-elem s xs ys h m = all-elem (λ x. elem x ys) s xs h m

-- A list whose members all lie in `ys`.
pub subset_of_members :
    (xs ys : List String)
    → ((s : String) → elem s xs ≡ true → elem s ys ≡ true)
    → subset xs ys ≡ true
subset_of_members [] ys h = refl
subset_of_members (x ∷ xs) ys h =
    ground (arith, h x, eq_refl x, subset_of_members xs ys (λ s m. h s (ground arith)))

-- `[x for xs in xss for x in xs]`
abbrev pub flatten {ℓ} : {A : Type ℓ} → List (List A) → List A
flatten [] = []
flatten (xs ∷ xss) = xs ++ flatten xss

module _ {ℓ κ} {A : Type ℓ} where
  abbrev pub All : (A → Type κ) → List A → Type κ
  All P [] = Unit
  All P (x ∷ xs) = P x × All P xs

  pub All-snoc : (P : A → Type κ) (xs : List A) (y : A) → All P xs → P y → All P (xs ++ y ∷ [])
  All-snoc P [] y h p = (p, tt)
  All-snoc P (x ∷ xs) y h p = (h.0, All-snoc P xs y h.1 p)

  -- Every two members, the earlier one first.
  abbrev pub Pairs : (A → A → Type κ) → List A → Type κ
  Pairs R [] = Unit
  Pairs R (x ∷ xs) = All (R x) xs × Pairs R xs

  pub Pairs-snoc :
      (R : A → A → Type κ) (xs : List A) (y : A)
      → Pairs R xs
      → All (λ x. R x y) xs
      → Pairs R (xs ++ y ∷ [])
  Pairs-snoc R [] y h p = (tt, tt)
  Pairs-snoc R (x ∷ xs) y h p = (All-snoc (R x) xs y h.0 p.0, Pairs-snoc R xs y h.1 p.1)

pub elem-keep :
    (s : String) (p : String → Bool) (xs : List String) → elem s (keep p xs) ≡ (elem s xs && p s)
elem-keep s p [] = refl
elem-keep s p (x ∷ xs) = elim (Bool-cases (x == s)) [
  | inl same ↦ rw ((eq_iff x s).0 same) (ground (arith, elem-keep s p xs, eq_refl s))
  | inr other ↦ ground (arith, elem-keep s p xs, other)
]

pub all-members :
    (p : String → Bool) (xs : List String)
    → ((s : String) → elem s xs ≡ true → p s ≡ true)
    → all p xs ≡ true
all-members p [] h = refl
all-members p (x ∷ xs) h =
    ground (arith, h x (rw (eq_refl x) refl), all-members p xs (λ s m. h s (ground (arith, m))))
