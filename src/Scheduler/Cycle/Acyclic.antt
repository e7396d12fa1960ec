-- ===== src/Scheduler/Cycle/Acyclic.antt =====
-- `detect_cycle` of epiphany_executor/scheduler.py on a graph in which some rank falls along every edge.
use epiphany_executor.Prelude.{
  ℕ, zero, suc, ◌+◌, ◌<◌, ◌≤◌, String, Bool, true, false, ◌≡◌, ◌≢◌, refl, sym, ◌∙◌, ◌⊎◌, inl, inr,
  some, List, [], ◌∷◌, if◌then◌else◌, ◌==◌, elem, elem-append, keys, lookup, insert, lookup-insert,
  Bool-cases, arith, eq_iff, eq_refl, length, or_else,
}
use epiphany_executor.Scheduler.Dag.{Dag, prereqs}
use epiphany_executor.Scheduler.Cycle.{
  Color, white, gray, black, Search, color_of, Outcome, or_next, visit_prereqs, enter, dfs,
  visit_all, all_white, names, search_cycle,
}

-- The rank of each prerequisite is below that of its step.
abbrev pub Ranked : (String → ℕ) → Dag → Type 0
Ranked rank dag = (s p : String) → elem p (prereqs dag s) ≡ true → rank p < rank s

abbrev pub is_white : Color → Bool
is_white white = true
is_white _ = false

-- How many names of a list are still white.
abbrev pub whites : Search → List String → ℕ
whites s [] = 0
whites s (n ∷ ns) = (if is_white (color_of s n) then 1 else 0) + whites s ns

-- The state `t` colours no name white that `s` does not, and has no gray name that `s` has not.
record Later (s t : Search) : Type 0 where
  fades : (n : String) → is_white (color_of s n) ≡ false → is_white (color_of t n) ≡ false
  grays : (n : String) → color_of t n ≡ gray → color_of s n ≡ gray

-- Every gray name has at least the rank `r`.
abbrev GrayAbove : (String → ℕ) → ℕ → Search → Type 0
GrayAbove rank r s = (n : String) → color_of s n ≡ gray → r ≤ rank n

-- The search went on and found nothing.
abbrev Clean : Search → Outcome → Type 0
Clean s o = (t : Search) × (o ≡ some ([], t)) × Later s t

Later-refl : (s : Search) → Later s s
Later-refl s = record { fades = λ n h. h; grays = λ n h. h }

Later-trans : {s t u : Search} → Later s t → Later t u → Later s u
Later-trans a b = record {
  fades = λ n h. b.fades n (a.fades n h);
  grays = λ n h. a.grays n (b.grays n h);
}

whites-le : (s t : Search) (ns : List String) → Later s t → whites t ns ≤ whites s ns
whites-le s t [] l = omega arith
whites-le s t (n ∷ ns) l = ground (arith, l.fades n, whites-le s t ns l)

pub color_of-enter :
    (n m : String) (s : Search) → color_of (enter n s) m ≡ (if n == m then gray else color_of s m)
color_of-enter n m s = ground (arith, lookup-insert n m gray s.color)

whites-enter-le : (n : String) (s : Search) (ns : List String) → whites (enter n s) ns ≤ whites s ns
whites-enter-le n s [] = omega arith
whites-enter-le n s (m ∷ ns) = ground (arith, color_of-enter n m s, whites-enter-le n s ns)

pub whites-enter-lt :
    (n : String) (s : Search) (ns : List String)
    → color_of s n ≡ white
    → elem n ns ≡ true
    → whites (enter n s) ns < whites s ns
whites-enter-lt n s [] w m = ground arith
whites-enter-lt n s (k ∷ ns) w m = elim (Bool-cases (k == n)) [
  | inl same ↦
      rw ((eq_iff k n).0 same)
        (ground (arith, color_of-enter n n s, eq_refl n, whites-enter-le n s ns))
  | inr other ↦ ground (arith, color_of-enter n k s, eq_iff n k, eq_iff k n, whites-enter-lt n s ns)
]

pub Color-cases : (c : Color) → (c ≡ white) ⊎ ((c ≡ gray) ⊎ (c ≡ black))
Color-cases white = inl refl
Color-cases gray = inr (inl refl)
Color-cases black = inr (inr refl)

pub whites-pos :
    (n : String) (s : Search) (ns : List String)
    → color_of s n ≡ white
    → elem n ns ≡ true
    → 0 < whites s ns
whites-pos n s ns w m = omega (arith, whites-enter-lt n s ns w m)

Clean-next :
    (s t : Search) (next : Search → Outcome)
    → Later s t
    → Clean t (next t)
    → Clean s (or_next (some ([], t)) next)
Clean-next s t next l (u, e, k) = (u, e, Later-trans l k)

module _ (rank : String → ℕ) (ns : List String) where
  -- What the loop needs of the recursive call, for names of rank below `r`.
  abbrev Calls : ℕ → ℕ → (String → Search → Outcome) → Type 0
  Calls r fuel call =
      (m : String) (s : Search)
      → color_of s m ≡ white
      → elem m ns ≡ true
      → rank m < r
      → GrayAbove rank r s
      → whites s ns ≤ fuel
      → Clean s (call m s)

  visit_prereqs-Clean :
      (r fuel : ℕ) (call : String → Search → Outcome) (ms : List String) (s : Search)
      → Calls r fuel call
      → ((m : String) → elem m ms ≡ true → (elem m ns ≡ true) × (rank m < r))
      → GrayAbove rank r s
      → whites s ns ≤ fuel
      → Clean s (visit_prereqs call ms s)
  unfolding visit_prereqs
  visit_prereqs-Clean r fuel call [] s c below g w = (s, refl, Later-refl s)
  visit_prereqs-Clean r fuel call (m ∷ ms) s c below g w =
      let known = below m (ground (arith, eq_refl m)) in
      let rest = λ (k : String) (h : elem k ms ≡ true). below k (ground arith) in
      elim (Color-cases (color_of s m)) [
        | inl is_w ↦
            let (t, e, l) = c m s is_w known.0 known.1 g w in
            rw (is_w, visit_prereqs)
              (rw e (
                Clean-next s t (visit_prereqs call ms) l (
                  visit_prereqs-Clean r fuel call ms t c rest (λ n h. g n (l.grays n h))
                    (omega (arith, whites-le s t ns l)))))
        | inr (inl is_g) ↦ absurd (omega (arith, g m is_g, known.1))
        | inr (inr is_b) ↦
            rw (is_b, visit_prereqs) (visit_prereqs-Clean r fuel call ms s c rest g w)
      ]

  enter-GrayAbove :
      (n : String) (s : Search)
      → GrayAbove rank (suc (rank n)) s
      → GrayAbove rank (rank n) (enter n s)
  enter-GrayAbove n s g k h = elim (Bool-cases (n == k)) [
    | inl same ↦ rw ((eq_iff n k).0 same) (omega arith)
    | inr other ↦ omega (arith, g k (sym (color_of-enter n k s ∙ rw other refl) ∙ h))
  ]

  leave-Later :
      (n : String) (s t : Search)
      → Later (enter n s) t
      → Later s (record { color = insert n black t.color; stack = t.stack })
  leave-Later n s t l = record {
    fades = λ k h. ground (arith, lookup-insert n k black t.color, color_of-enter n k s, l.fades k);
    grays = λ k h. ground (arith, lookup-insert n k black t.color, color_of-enter n k s, l.grays k);
  }

  module _ (dag : Dag) (ranked : Ranked rank dag)
      (closed : (n p : String) → elem p (prereqs dag n) ≡ true → elem p ns ≡ true) where
    dfs-Clean :
        (fuel : ℕ) (n : String) (s : Search)
        → color_of s n ≡ white
        → elem n ns ≡ true
        → GrayAbove rank (suc (rank n)) s
        → whites s ns ≤ fuel
        → Clean s (dfs dag fuel n s)
    unfolding dfs
    dfs-Clean zero n s w m g f = absurd (omega (arith, whites-pos n s ns w m))
    dfs-Clean (suc fuel) n s w m g f =
        let (t, e, l) =
          visit_prereqs-Clean (rank n) fuel (dfs dag fuel) (prereqs dag n) (enter n s)
            (λ k u kw kn kr kg kf. dfs-Clean fuel k u kw kn (λ j h. omega (arith, kg j h)) kf)
            (λ k h. (closed n k h, ranked n k h)) (enter-GrayAbove n s g)
            (omega (arith, whites-enter-lt n s ns w m)) in
        rw e (
          _,
          refl,
          record { fades = (leave-Later n s t l).fades; grays = (leave-Later n s t l).grays },
        )

    visit_all-Clean :
        (fuel : ℕ) (ks : List String) (s : Search)
        → ((k : String) → elem k ks ≡ true → elem k ns ≡ true)
        → ((k : String) → color_of s k ≢ gray)
        → whites s ns ≤ fuel
        → Clean s (visit_all dag fuel ks s)
    unfolding visit_all
    visit_all-Clean fuel [] s m g f = (s, refl, Later-refl s)
    visit_all-Clean fuel (k ∷ ks) s m g f =
        let rest = λ (j : String) (h : elem j ks ≡ true). m j (ground arith) in
        elim (Color-cases (color_of s k)) [
          | inl is_w ↦
              let (t, e, l) =
                dfs-Clean fuel k s is_w (m k (ground (arith, eq_refl k))) (λ j h. absurd (g j h))
                  f in
              rw (is_w, visit_all)
                (rw e (
                  Clean-next s t (visit_all dag fuel ks) l (
                    visit_all-Clean fuel ks t rest (λ j h. g j (l.grays j h))
                      (omega (arith, whites-le s t ns l)))))
          | inr (inl is_g) ↦ absurd (g k is_g)
          | inr (inr is_b) ↦ rw (is_b, visit_all) (visit_all-Clean fuel ks s rest g f)
        ]

color_all_white : (dag : Dag) (n : String) → or_else (lookup n (all_white dag)) white ≡ white
unfolding all_white
color_all_white [] n = refl
color_all_white ((k, ps) ∷ dag) n = ground (arith, color_all_white dag n)

pub whites-le-length : (s : Search) (ns : List String) → whites s ns ≤ length ns
whites-le-length s [] = omega arith
whites-le-length s (n ∷ ns) = ground (arith, whites-le-length s ns)

pub elem-keys-names :
    (dag : Dag) (k : String) → elem k (keys dag) ≡ true → elem k (names dag) ≡ true
unfolding names
elem-keys-names [] k h = cc
elem-keys-names ((n, ps) ∷ dag) k h =
    ground (arith, elem-append k ps (names dag), elem-keys-names dag k)

pub elem-prereqs-names :
    (dag : Dag) (n p : String) → elem p (prereqs dag n) ≡ true → elem p (names dag) ≡ true
unfolding names
elem-prereqs-names [] n p h = cc
elem-prereqs-names ((k, ps) ∷ dag) n p h =
    ground (arith, elem-append p ps (names dag), elem-prereqs-names dag n p)

-- On a ranked graph the search ends, with no cycle.
pub search_cycle_clean :
    (rank : String → ℕ) (dag : Dag)
    → Ranked rank dag
    → (t : Search) × (search_cycle dag ≡ some ([], t))
unfolding search_cycle
search_cycle_clean rank dag ranked =
    let s : Search = record { color = all_white dag; stack = [] } in
    let (t, e, _) =
      visit_all-Clean rank (names dag) dag ranked (elem-prereqs-names dag)
        (suc (length (names dag))) (keys dag) s (elem-keys-names dag)
        (λ k h. cc (color_all_white dag k, h)) (omega (arith, whites-le-length s (names dag))) in
    (t, e)
