-- ===== src/Scheduler/Cycle/Enough.antt =====
-- The fuel of `detect_cycle` of epiphany_executor/scheduler.py on every graph, cyclic or not.
use epiphany_executor.Prelude.{
  ℕ, zero, suc, ◌≤◌, String, true, false, ◌≡◌, refl, inl, inr, none, some, List, [], ◌∷◌, ◌++◌,
  elem, keys, lookup-insert, arith, eq_refl, length,
}
use epiphany_executor.Scheduler.Dag.{Dag, prereqs}
use epiphany_executor.Scheduler.Cycle.{
  white, black, Search, color_of, from_first, Outcome, or_next, visit_prereqs, enter, leave, dfs,
  visit_all, all_white, names, search_cycle,
}
use epiphany_executor.Scheduler.Cycle.Acyclic.{
  is_white, whites, color_of-enter, whites-enter-lt, Color-cases, whites-pos, whites-le-length,
  elem-keys-names, elem-prereqs-names,
}
use epiphany_executor.Scheduler.Cycle.Found.{IsCycle, search_cycle-IsCycle}

-- The state `t` colours no name white that `s` does not.
abbrev Fades : Search → Search → Type 0
Fades s t = (n : String) → is_white (color_of s n) ≡ false → is_white (color_of t n) ≡ false

-- The search did not run out of fuel: it found a path, or went on from `s` with no new white name.
abbrev Ends : Search → Outcome → Type 0
Ends s none = ◌≡◌ {A = ℕ} 0 1
Ends s (some ([], t)) = Fades s t
Ends s (some (x ∷ r, t)) = Unit

or_next-Ends :
    (s s' : Search) (o : Outcome) (next : Search → Outcome)
    → Ends s o
    → ((t : Search) → Fades s t → Ends s' (next t))
    → Ends s' (or_next o next)
or_next-Ends s s' none next e k = absurd (omega (arith, e))
or_next-Ends s s' (some ([], t)) next e k = k t e
or_next-Ends s s' (some (x ∷ r, t)) next e k = tt

Ends-trans : (s t : Search) (o : Outcome) → Fades s t → Ends t o → Ends s o
Ends-trans s t none f e = e
Ends-trans s t (some ([], u)) f e = λ n h. e n (f n h)
Ends-trans s t (some (x ∷ r, u)) f e = tt

closing-Ends : (s t : Search) (m : String) (xs : List String) → Ends s (some (xs ++ m ∷ [], t))
closing-Ends s t m [] = tt
closing-Ends s t m (x ∷ xs) = tt

whites-fade : (s t : Search) (ns : List String) → Fades s t → whites t ns ≤ whites s ns
whites-fade s t [] f = omega arith
whites-fade s t (n ∷ ns) f = ground (arith, f n, whites-fade s t ns f)

module _ (ns : List String) where
  -- What the loop needs of the recursive call.
  abbrev Calls : ℕ → (String → Search → Outcome) → Type 0
  Calls fuel call =
      (m : String) (s : Search)
      → color_of s m ≡ white
      → elem m ns ≡ true
      → whites s ns ≤ fuel
      → Ends s (call m s)

  visit_prereqs-Ends :
      (fuel : ℕ) (call : String → Search → Outcome) (ms : List String) (s : Search)
      → Calls fuel call
      → ((m : String) → elem m ms ≡ true → elem m ns ≡ true)
      → whites s ns ≤ fuel
      → Ends s (visit_prereqs call ms s)
  unfolding visit_prereqs
  visit_prereqs-Ends fuel call [] s c known w = λ n h. h
  visit_prereqs-Ends fuel call (m ∷ ms) s c known w =
      let here = known m (ground (arith, eq_refl m)) in
      let rest = λ (k : String) (h : elem k ms ≡ true). known k (ground arith) in
      elim (Color-cases (color_of s m)) [
        | inl is_w ↦
            rw (is_w, visit_prereqs)
              (or_next-Ends s s (call m s) (visit_prereqs call ms) (c m s is_w here w) (λ t f.
                Ends-trans s t _ f (
                  visit_prereqs-Ends fuel call ms t c rest
                    (omega (arith, whites-fade s t ns f, w)))))
        | inr (inl is_g) ↦ rw (is_g, visit_prereqs) (closing-Ends s s m (from_first m s.stack))
        | inr (inr is_b) ↦ rw (is_b, visit_prereqs) (visit_prereqs-Ends fuel call ms s c rest w)
      ]

  leave-Ends : (n : String) (s t : Search) → Fades (enter n s) t → Ends s (leave n t)
  leave-Ends n s t f k h =
      ground (arith, lookup-insert n k black t.color, color_of-enter n k s, f k, h)

  module _ (dag : Dag)
      (closed : (n p : String) → elem p (prereqs dag n) ≡ true → elem p ns ≡ true) where
    dfs-Ends : (fuel : ℕ) → Calls fuel (dfs dag fuel)
    unfolding dfs
    dfs-Ends zero n s w m f = absurd (omega (arith, whites-pos n s ns w m, f))
    dfs-Ends (suc fuel) n s w m f =
        or_next-Ends (enter n s) s _ (leave n)
          (visit_prereqs-Ends fuel (dfs dag fuel) (prereqs dag n) (enter n s) (dfs-Ends fuel)
            (closed n) (omega (arith, whites-enter-lt n s ns w m, f)))
          (leave-Ends n s)

    visit_all-Ends :
        (fuel : ℕ) (ks : List String) (s : Search)
        → ((k : String) → elem k ks ≡ true → elem k ns ≡ true)
        → whites s ns ≤ fuel
        → Ends s (visit_all dag fuel ks s)
    unfolding visit_all
    visit_all-Ends fuel [] s m f = λ n h. h
    visit_all-Ends fuel (k ∷ ks) s m f =
        let rest = λ (j : String) (h : elem j ks ≡ true). m j (ground arith) in
        let here = m k (ground (arith, eq_refl k)) in
        elim (Color-cases (color_of s k)) [
          | inl is_w ↦
              rw (is_w, visit_all)
                (or_next-Ends s s (dfs dag fuel k s) (visit_all dag fuel ks)
                  (dfs-Ends fuel k s is_w here f)
                  (λ t g.
                    Ends-trans s t _ g
                      (visit_all-Ends fuel ks t rest (omega (arith, whites-fade s t ns g, f)))))
          | inr (inl is_g) ↦ rw (is_g, visit_all) (visit_all-Ends fuel ks s rest f)
          | inr (inr is_b) ↦ rw (is_b, visit_all) (visit_all-Ends fuel ks s rest f)
        ]

search_cycle-Ends :
    (dag : Dag) → Ends (record { color = all_white dag; stack = [] }) (search_cycle dag)
unfolding search_cycle
search_cycle-Ends dag =
    let s : Search = record { color = all_white dag; stack = [] } in
    visit_all-Ends (names dag) dag (elem-prereqs-names dag) (suc (length (names dag))) (keys dag) s
      (elem-keys-names dag) (omega (arith, whites-le-length s (names dag)))

-- The path is empty, or a cycle of the graph.
abbrev pub EmptyOrCycle : Dag → List String → Type 0
EmptyOrCycle dag [] = Unit
EmptyOrCycle dag (x ∷ path) = IsCycle dag (x ∷ path)

-- On every graph the search returns a path, which is empty or a cycle of the graph: each name is a
-- prerequisite of the one before it, and the path ends with the name that it starts with.
pub search_cycle_sound :
    (dag : Dag)
    → (path : List String) × (s : Search) × (search_cycle dag ≡ some (path, s))
      × EmptyOrCycle dag path
search_cycle_sound dag = by_outcome (search_cycle dag) refl (search_cycle-Ends dag)
  where
    by_outcome :
        (o : Outcome)
        → search_cycle dag ≡ o
        → Ends (record { color = all_white dag; stack = [] }) o
        → (path : List String) × (s : Search) × (search_cycle dag ≡ some (path, s))
          × EmptyOrCycle dag path
    by_outcome none h e = absurd (omega (arith, e))
    by_outcome (some ([], s)) h e = ([], s, h, tt)
    by_outcome (some (x ∷ path, s)) h e = (x ∷ path, s, h, search_cycle-IsCycle dag x path s h)
