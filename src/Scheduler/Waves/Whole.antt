-- ===== src/Scheduler/Waves/Whole.antt =====
-- How many steps the schedule of `schedule_waves` in epiphany_executor/scheduler.py has.
use epiphany_executor.Prelude.{
  ◌+◌, String, Bool, true, ◌≡◌, refl, sym, ◌∙◌, ap, Option, List, [], ◌∷◌, map, ok, Dict, keys,
  Distinct, elem, count, count-pos-elem, keep, flatten, length, if◌then◌else◌, ◌==◌, eq_iff,
  eq_refl, arith, Bool-cases, inl, inr,
}
use epiphany_executor.Value.{Value}
use epiphany_executor.Contract.{Contract}
use epiphany_executor.Scheduler.Cohort.{FanoutBudget}
use epiphany_executor.Scheduler.Waves.{Wave, all_steps, schedule_waves}
use epiphany_executor.Scheduler.Waves.Schedule.{schedule_waves-count}

remove : String → List String → List String
remove s [] = []
remove s (y ∷ ys) = let rest = remove s ys in if y == s then ys else y ∷ rest

count-remove :
    (s t : String) (ys : List String)
    → elem s ys ≡ true
    → count t (remove s ys) + (if s == t then 1 else 0) ≡ count t ys
unfolding remove
count-remove s t [] h = absurd (cc h)
count-remove s t (y ∷ ys) h = elim (Bool-cases (y == s)) [
  | inl same ↦ rw ((eq_iff y s).0 same, eq_refl s) (omega arith)
  | inr other ↦ ground (arith, other, h, count-remove s t ys)
]

kept-remove :
    (p : String → Bool) (s : String) (ys : List String)
    → elem s ys ≡ true
    → length (keep p (remove s ys)) + (if p s then 1 else 0) ≡ length (keep p ys)
unfolding remove
kept-remove p s [] h = absurd (cc h)
kept-remove p s (y ∷ ys) h = elim (Bool-cases (y == s)) [
  | inl same ↦ rw ((eq_iff y s).0 same, eq_refl s) (ground arith)
  | inr other ↦ ground (arith, other, h, kept-remove p s ys)
]

-- Lists with the same counts keep equally many.
pub kept_of_counts :
    (p : String → Bool) (xs ys : List String)
    → ((s : String) → count s xs ≡ count s ys)
    → length (keep p xs) ≡ length (keep p ys)
kept_of_counts p [] [] h = refl
kept_of_counts p [] (y ∷ ys) h = absurd (ground (arith, h y, eq_refl y))
kept_of_counts p (x ∷ xs) ys h =
    let here = count-pos-elem x ys (ground (arith, h x, eq_refl x)) in
    ground (
      arith,
      kept-remove p x ys here,
      kept_of_counts p xs (remove x ys) (λ s. omega (arith, h s, count-remove x s ys here)),
    )

pub length-keys : (d : Dict Contract) → length (keys d) ≡ length d
length-keys [] = refl
length-keys ((k, c) ∷ d) = omega (arith, length-keys d)

kept-true : (xs : List String) → keep (λ s. true) xs ≡ xs
kept-true [] = refl
kept-true (x ∷ xs) = ap (λ (r : List String). x ∷ r) (kept-true xs)

-- A schedule of contracts with distinct ids has as many steps as there are contracts.
pub schedule_waves-length :
    (canonical : String → Option String) (contracts : Dict Contract) (build_order : List Value)
    (budget : Option FanoutBudget) (serial : Bool) (waves : List Wave)
    → Distinct contracts
    → schedule_waves canonical contracts build_order budget serial ≡ ok waves
    → length (flatten (map all_steps waves)) ≡ length contracts
schedule_waves-length canonical contracts build_order budget serial waves d h =
    ap length (sym (kept-true (flatten (map all_steps waves))))
    ∙ kept_of_counts (λ s. true) (flatten (map all_steps waves)) (keys contracts)
        (λ s. schedule_waves-count canonical contracts build_order budget serial waves s d h)
    ∙ ap length (kept-true (keys contracts))
    ∙ length-keys contracts
