-- ===== src/Prelude/StableSort.antt =====
-- Laws of the stable sort by a numeric key: the order of the result, and what stability keeps.
use Prim.Native.Nat.{ℕ, ◌≤◌}
use mathlib.Core.Path.{◌≡◌, refl, ◌∙◌}
use mathlib.Core.Logic.{inl, inr}
use mathlib.Core.Bool.{Bool, true}
use mathlib.Core.List.{List, [], ◌∷◌, Perm}
use mathlib.Core.List.Perm
use native.Mathlib.Omega.{arith}
use epiphany_executor.Prelude.Tests.{leb, Bool-cases}
use epiphany_executor.Prelude.Lists.{keep}
use epiphany_executor.Prelude.Sort.{insert_sorted, sort_by, insert_sorted-perm}

module _ {ℓ} {A : Type ℓ} (key : A → ℕ) where
  abbrev pub le_key : A → A → Bool
  le_key x y = leb (key x) (key y)

  -- The keys are at least `lo` and never fall.
  abbrev pub Ascending : ℕ → List A → Type 0
  Ascending lo [] = Unit
  Ascending lo (x ∷ xs) = (lo ≤ key x) × Ascending (key x) xs

  insert_sorted-Ascending :
      (lo : ℕ) (x : A) (ys : List A)
      → lo ≤ key x
      → Ascending lo ys
      → Ascending lo (insert_sorted le_key x ys)
  insert_sorted-Ascending lo x [] h a = (h, tt)
  insert_sorted-Ascending lo x (y ∷ ys) h a = elim (Bool-cases (le_key x y)) [
    | inl first ↦ rw first (h, (ground arith, a.1))
    | inr later ↦ rw later (a.0, insert_sorted-Ascending (key y) x ys (ground arith) a.1)
  ]

  pub sort_by-Ascending : (xs : List A) → Ascending 0 (sort_by le_key xs)
  sort_by-Ascending [] = tt
  sort_by-Ascending (x ∷ xs) =
      insert_sorted-Ascending 0 x (sort_by le_key xs) (omega arith) (sort_by-Ascending xs)

  pub sort_by-perm : (xs : List A) → Perm (sort_by le_key xs) xs
  sort_by-perm [] = Perm.refl []
  sort_by-perm (x ∷ xs) =
      Perm.trans (insert_sorted-perm le_key x (sort_by le_key xs)) (Perm.cons x (sort_by-perm xs))

  -- The items that a test picks stay in their order when they share one key.
  module _ (p : A → Bool) (shared : (x y : A) → p x ≡ true → p y ≡ true → key x ≡ key y) where
    keep-insert_sorted :
        (x : A) (ys : List A) → keep p (insert_sorted le_key x ys) ≡ keep p (x ∷ ys)
    keep-insert_sorted x [] = refl
    keep-insert_sorted x (y ∷ ys) = ground (arith, keep-insert_sorted x ys, shared x y)

    pub keep-sort_by : (xs : List A) → keep p (sort_by le_key xs) ≡ keep p xs
    keep-sort_by [] = refl
    keep-sort_by (x ∷ xs) =
        keep-insert_sorted x (sort_by le_key xs) ∙ ground (arith, keep-sort_by xs)
