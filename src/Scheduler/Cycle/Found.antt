-- ===== src/Scheduler/Cycle/Found.antt =====
-- The paths that `detect_cycle` of epiphany_executor/scheduler.py returns.
use mathlib.Core.Path.{subst}
use epiphany_executor.Prelude.{
  ℕ, zero, suc, String, true, ◌≡◌, refl, sym, ◌∙◌, ap, none, some, List, [], ◌∷◌, ◌++◌, insert,
  lookup, lookup-insert, or_else, elem, elem-append, all, all-members, length, &&-eq-true, keys,
  ◌==◌, eq_iff, arith, Bool-cases, inl, inr,
}
use epiphany_executor.Scheduler.Dag.{Dag, prereqs}
use epiphany_executor.Scheduler.Cycle.{
  Color, white, gray, black, Search, color_of, from_first, pop_last, Outcome, or_next,
  visit_prereqs, enter, leave, dfs, visit_all, all_white, names, search_cycle,
}

-- Each name of the path is a prerequisite of the one before it.
abbrev pub Linked : Dag → List String → Type 0
Linked dag [] = Unit
Linked dag (x ∷ []) = Unit
Linked dag (x ∷ y ∷ xs) = (elem y (prereqs dag x) ≡ true) × Linked dag (y ∷ xs)

-- The path follows edges and comes back to its first name.
abbrev pub IsCycle : Dag → List String → Type 0
IsCycle dag path =
    (m : String) × (middle : List String) × (path ≡ m ∷ middle ++ m ∷ []) × Linked dag path

-- Every gray name stands in the stack.
abbrev Grays : Search → Type 0
Grays s = (m : String) → color_of s m ≡ gray → elem m s.stack ≡ true

-- A search that found nothing leaves the stack `stk`, and one that found a path found a cycle.
abbrev Sound : Dag → List String → Outcome → Type 0
Sound dag stk none = Unit
Sound dag stk (some ([], t)) = (t.stack ≡ stk) × Grays t
Sound dag stk (some (x ∷ r, t)) = IsCycle dag (x ∷ r)

Linked-snoc :
    (dag : Dag) (base : List String) (n m : String)
    → Linked dag (base ++ n ∷ [])
    → elem m (prereqs dag n) ≡ true
    → Linked dag ((base ++ n ∷ []) ++ m ∷ [])
Linked-snoc dag [] n m l e = (e, tt)
Linked-snoc dag (x ∷ []) n m l e = (l.0, (e, tt))
Linked-snoc dag (x ∷ y ∷ base) n m l e = (l.0, Linked-snoc dag (y ∷ base) n m l.1 e)

Linked-tail : (dag : Dag) (x : String) (xs : List String) → Linked dag (x ∷ xs) → Linked dag xs
Linked-tail dag x [] l = tt
Linked-tail dag x (y ∷ xs) l = l.1

Linked-from_first :
    (dag : Dag) (m : String) (xs ys : List String)
    → Linked dag (xs ++ ys)
    → Linked dag (from_first m xs ++ ys)
unfolding from_first
Linked-from_first dag m [] ys l = l
Linked-from_first dag m (x ∷ xs) ys l = elim (Bool-cases (x == m)) [
  | inl same ↦ rw same l
  | inr other ↦ rw other (Linked-from_first dag m xs ys (Linked-tail dag x (xs ++ ys) l))
]

from_first-found :
    (m : String) (xs : List String)
    → elem m xs ≡ true
    → (rest : List String) × (from_first m xs ≡ m ∷ rest)
unfolding from_first
from_first-found m [] h = absurd (cc h)
from_first-found m (x ∷ xs) h = elim (Bool-cases (x == m)) [
  | inl same ↦ (xs, rw same (ap (λ (y : String). y ∷ xs) ((eq_iff x m).0 same)))
  | inr other ↦ let (rest, e) = from_first-found m xs (rw other at h) in (rest, rw other e)
]

pop_last-snoc : (xs : List String) (n : String) → pop_last (xs ++ n ∷ []) ≡ xs
unfolding pop_last
pop_last-snoc [] n = refl
pop_last-snoc (x ∷ []) n = refl
pop_last-snoc (x ∷ y ∷ xs) n = ap (λ (r : List String). x ∷ r) (pop_last-snoc (y ∷ xs) n)

or_next-Sound :
    (dag : Dag) (stk stk' : List String) (o : Outcome) (next : Search → Outcome)
    → Sound dag stk o
    → ((t : Search) → t.stack ≡ stk → Grays t → Sound dag stk' (next t))
    → Sound dag stk' (or_next o next)
or_next-Sound dag stk stk' none next h k = tt
or_next-Sound dag stk stk' (some ([], t)) next h k = k t h.0 h.1
or_next-Sound dag stk stk' (some (x ∷ r, t)) next h k = h

closing-Sound :
    (dag : Dag) (base : List String) (n m : String) (s : Search)
    → s.stack ≡ base ++ n ∷ []
    → Linked dag (base ++ n ∷ [])
    → elem m (prereqs dag n) ≡ true
    → elem m s.stack ≡ true
    → Sound dag (base ++ n ∷ []) (some (from_first m s.stack ++ m ∷ [], s))
closing-Sound dag base n m s stack l edge there =
    let (rest, found) = from_first-found m s.stack there in
    let whole : Linked dag (from_first m s.stack ++ m ∷ []) =
      Linked-from_first dag m s.stack (m ∷ []) (rw stack (Linked-snoc dag base n m l edge)) in
    subst (λ p. Sound dag (base ++ n ∷ []) (some (p ++ m ∷ [], s))) (sym found)
      (m, rest, refl, subst (λ p. Linked dag (p ++ m ∷ [])) found whole)

-- The recursive call is sound on every state that the loop gives it.
abbrev Recurs : Dag → (String → Search → Outcome) → Type 0
Recurs dag call =
    (m : String) (s : Search)
    → Grays s
    → Linked dag (s.stack ++ m ∷ [])
    → Sound dag s.stack (call m s)

visit_prereqs-Sound :
    (dag : Dag) (call : String → Search → Outcome) (base : List String) (n : String)
    (ms : List String) (s : Search)
    → Recurs dag call
    → s.stack ≡ base ++ n ∷ []
    → Linked dag (base ++ n ∷ [])
    → Grays s
    → all (λ m. elem m (prereqs dag n)) ms ≡ true
    → Sound dag (base ++ n ∷ []) (visit_prereqs call ms s)
unfolding visit_prereqs
visit_prereqs-Sound dag call base n [] s sound stack l grays edges = (stack, grays)
visit_prereqs-Sound dag call base n (m ∷ ms) s sound stack l grays edges =
    by_color
      (λ t same fresh.
        visit_prereqs-Sound dag call base n ms t sound same l fresh (&&-eq-true _ _ edges).1)
      (color_of s m) refl
  where
    by_color :
        ((t : Search)
          → t.stack ≡ base ++ n ∷ []
          → Grays t
          → Sound dag (base ++ n ∷ []) (visit_prereqs call ms t))
        → (c : Color) → color_of s m ≡ c
        → Sound dag (base ++ n ∷ []) (elim c [
          | gray ↦ some (from_first m s.stack ++ m ∷ [], s)
          | white ↦ or_next (call m s) (visit_prereqs call ms)
          | black ↦ visit_prereqs call ms s
        ])
    by_color onward gray e =
        closing-Sound dag base n m s stack l (&&-eq-true _ _ edges).0 (grays m e)
    by_color onward white e =
        or_next-Sound dag s.stack (base ++ n ∷ []) (call m s) (visit_prereqs call ms)
          (sound m s grays (rw stack (Linked-snoc dag base n m l (&&-eq-true _ _ edges).0)))
          (λ t same fresh. onward t (same ∙ stack) fresh)
    by_color onward black e = onward s stack grays

enter-Grays : (n : String) (s : Search) → Grays s → Grays (enter n s)
enter-Grays n s grays m h =
    ground (arith, lookup-insert n m gray s.color, elem-append m s.stack (n ∷ []), grays m, h)

leave-Sound :
    (dag : Dag) (n : String) (stk : List String) (t : Search)
    → t.stack ≡ stk ++ n ∷ []
    → Grays t
    → Sound dag stk (leave n t)
leave-Sound dag n stk t stack grays = (ap pop_last stack ∙ pop_last-snoc stk n, still)
  where
    still : Grays (record { color = insert n black t.color; stack = pop_last t.stack })
    still m h = elim (Bool-cases (n == m)) [
      | inl same ↦ absurd (cc (rw (lookup-insert n m black t.color, same) at h))
      | inr other ↦
          let gray_before : color_of t m ≡ gray =
            rw (lookup-insert n m black t.color, other) at h in
          let within : elem m (stk ++ n ∷ []) ≡ true = rw stack at (grays m gray_before) in
          rw (stack, pop_last-snoc stk n)
            (ground (arith, within, other, elem-append m stk (n ∷ [])))
    ]

all-elem_self : (xs : List String) → all (λ m. elem m xs) xs ≡ true
all-elem_self xs = all-members (λ m. elem m xs) xs (λ s m. m)

dfs-Sound : (dag : Dag) (fuel : ℕ) → Recurs dag (dfs dag fuel)
unfolding dfs
dfs-Sound dag zero n s grays l = tt
dfs-Sound dag (suc fuel) n s grays l =
    or_next-Sound dag (s.stack ++ n ∷ []) s.stack _ (leave n)
      (visit_prereqs-Sound dag (dfs dag fuel) s.stack n (prereqs dag n) (enter n s)
        (dfs-Sound dag fuel) refl l (enter-Grays n s grays) (all-elem_self (prereqs dag n)))
      (λ t stack fresh. leave-Sound dag n s.stack t stack fresh)

visit_all-Sound :
    (dag : Dag) (fuel : ℕ) (ns : List String) (s : Search)
    → s.stack ≡ []
    → Grays s
    → Sound dag [] (visit_all dag fuel ns s)
unfolding visit_all
visit_all-Sound dag fuel [] s stack grays = (stack, grays)
visit_all-Sound dag fuel (n ∷ ns) s stack grays =
    by_color (λ t same fresh. visit_all-Sound dag fuel ns t same fresh) (color_of s n)
  where
    by_color :
        ((t : Search) → t.stack ≡ [] → Grays t → Sound dag [] (visit_all dag fuel ns t))
        → (c : Color)
        → Sound dag [] (elim c [
          | white ↦ or_next (dfs dag fuel n s) (visit_all dag fuel ns)
          | gray ↦ visit_all dag fuel ns s
          | black ↦ visit_all dag fuel ns s
        ])
    by_color onward white =
        or_next-Sound dag s.stack [] (dfs dag fuel n s) (visit_all dag fuel ns)
          (dfs-Sound dag fuel n s grays (rw stack tt))
          (λ t same fresh. onward t (same ∙ stack) fresh)
    by_color onward gray = onward s stack grays
    by_color onward black = onward s stack grays

all_white-color : (dag : Dag) (m : String) → or_else (lookup m (all_white dag)) white ≡ white
unfolding all_white
all_white-color [] m = refl
all_white-color ((n, ps) ∷ dag) m = ground (arith, all_white-color dag m)

-- A path that the search returns is a cycle of the graph: each name is a prerequisite of the one
-- before it, and the path ends with the name that it starts with.
pub search_cycle-IsCycle :
    (dag : Dag) (x : String) (path : List String) (s : Search)
    → search_cycle dag ≡ some (x ∷ path, s)
    → IsCycle dag (x ∷ path)
unfolding search_cycle
search_cycle-IsCycle dag x path s h = subst (Sound dag []) h (
    visit_all-Sound dag (suc (length (names dag))) (keys dag)
      (record { color = all_white dag; stack = [] }) refl
      (λ m e. absurd (cc (sym (all_white-color dag m) ∙ e))))
