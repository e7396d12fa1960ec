-- ===== src/Prelude/Sort.antt =====
-- Python's `sorted`, which is stable: a key that is not smaller stays behind its equals.
use Prim.Native.String.{String, compare}
use mathlib.Core.Path.{◌≡◌, refl, ◌∙◌}
use mathlib.Core.Bool.{Bool}
use mathlib.Core.Logic.{inl, inr}
use mathlib.Core.List.{List, [], ◌∷◌, Perm}
use mathlib.Core.List.Perm
use native.Mathlib.Omega.{arith}
use text.Mathlib.Text.{is_le}
use epiphany_executor.Prelude.Tests.{if◌then◌else◌, Bool-cases}
use epiphany_executor.Prelude.Lists.{elem, count}

module _ {ℓ} {A : Type ℓ} (le : A → A → Bool) where
  abbrev pub insert_sorted : A → List A → List A
  insert_sorted x [] = x ∷ []
  insert_sorted x (y ∷ ys) = if le x y then x ∷ y ∷ ys else y ∷ insert_sorted x ys

  abbrev pub sort_by : List A → List A
  sort_by [] = []
  sort_by (x ∷ xs) = insert_sorted x (sort_by xs)

  pub insert_sorted-perm : (x : A) (ys : List A) → Perm (insert_sorted x ys) (x ∷ ys)
  insert_sorted-perm x [] = Perm.refl (x ∷ [])
  insert_sorted-perm x (y ∷ ys) = elim (Bool-cases (le x y)) [
    | inl first ↦ rw first (Perm.refl (x ∷ y ∷ ys))
    | inr later ↦ rw later (Perm.trans (Perm.cons y (insert_sorted-perm x ys)) (Perm.swap x y ys))
  ]

-- `sorted(xs)` on texts, by code point
abbrev pub le_text : String → String → Bool
le_text s t = is_le (compare s t)

unfoldable pub sorted : List String → List String
sorted xs = sort_by le_text xs

count-insert_sorted :
    (s x : String) (ys : List String) → count s (insert_sorted le_text x ys) ≡ count s (x ∷ ys)
count-insert_sorted s x [] = refl
count-insert_sorted s x (y ∷ ys) = ground (arith, count-insert_sorted s x ys)

pub count-sorted : (s : String) (xs : List String) → count s (sorted xs) ≡ count s xs
unfolding sorted
count-sorted s [] = refl
count-sorted s (x ∷ xs) =
    count-insert_sorted s x (sort_by le_text xs) ∙ ground (arith, count-sorted s xs)

elem-insert_sorted :
    (s x : String) (ys : List String) → elem s (insert_sorted le_text x ys) ≡ elem s (x ∷ ys)
elem-insert_sorted s x [] = refl
elem-insert_sorted s x (y ∷ ys) = ground (arith, elem-insert_sorted s x ys)

pub elem-sorted : (s : String) (xs : List String) → elem s (sorted xs) ≡ elem s xs
unfolding sorted
elem-sorted s [] = refl
elem-sorted s (x ∷ xs) =
    elem-insert_sorted s x (sort_by le_text xs) ∙ ground (arith, elem-sorted s xs)
