-- ===== src/Corpus/Partition.antt =====
-- The two sets of `partition_corpus` of epiphany_executor/corpus.py.
use mathlib.Core.List.{append_assoc, append-nil}
use mathlib.Core.Path.{subst}
use epiphany_executor.Prelude.{
  String, Bool, true, false, not, ◌≡◌, refl, sym, ◌∙◌, ap, map, keep, List, [], ◌∷◌, ◌++◌, ok,
  >>=-eq-ok, ok_inj, elem, disjoint, all, all-elem, &&-eq-true, if◌then◌else◌, arith, Bool-cases,
  inl, inr,
}
use epiphany_executor.Value.{Fields}
use epiphany_executor.Corpus.{
  tuning_role, held_out_role, CorpusPlan, CorpusPartition, verdict_in, names_of, is_disjoint,
  add_plan, add_json_runs, add_md_plans, partition_corpus,
}

-- The names of the new partition are those of the old one and then the given names, by set.
record Splits (held names : List String) (part part' : CorpusPartition) : Type 0 where
  tuning : names_of part'.tuning ≡ names_of part.tuning ++ keep (λ n. not (elem n held)) names
  held_out : names_of part'.held_out ≡ names_of part.held_out ++ keep (λ n. elem n held) names

names_of-append :
    (ps : List CorpusPlan) (p : CorpusPlan) → names_of (ps ++ p ∷ []) ≡ names_of ps ++ p.name ∷ []
names_of-append [] p = refl
names_of-append (q ∷ ps) p = ap (λ (r : List String). q.name ∷ r) (names_of-append ps p)

keep-append : (f : String → Bool) (xs ys : List String) → keep f (xs ++ ys) ≡ keep f xs ++ keep f ys
keep-append f [] ys = refl
keep-append f (x ∷ xs) ys = elim (Bool-cases (f x)) [
  | inl stays ↦ rw stays (ap (λ (r : List String). x ∷ r) (keep-append f xs ys))
  | inr falls ↦ rw falls (keep-append f xs ys)
]

Splits-append :
    (held xs ys : List String) (a b c : CorpusPartition)
    → Splits held xs a b
    → Splits held ys b c
    → Splits held (xs ++ ys) a c
Splits-append held xs ys a b c f g = record {
  tuning =
      g.tuning
      ∙ ap (λ (r : List String). r ++ keep (λ n. not (elem n held)) ys) f.tuning
      ∙ append_assoc (names_of a.tuning) _ _
      ∙ ap (λ (r : List String). names_of a.tuning ++ r)
          (sym (keep-append (λ n. not (elem n held)) xs ys));
  held_out =
      g.held_out
      ∙ ap (λ (r : List String). r ++ keep (λ n. elem n held) ys) f.held_out
      ∙ append_assoc (names_of a.held_out) _ _
      ∙ ap (λ (r : List String). names_of a.held_out ++ r)
          (sym (keep-append (λ n. elem n held) xs ys));
}

Splits-nil : (held : List String) (a : CorpusPartition) → Splits held [] a a
Splits-nil held a = record {
  tuning = sym (append-nil (names_of a.tuning));
  held_out = sym (append-nil (names_of a.held_out));
}

-- The plan's role is the one that its name has.
abbrev RoleFits : List String → CorpusPlan → Type 0
RoleFits held p = p.role ≡ (if elem p.name held then held_out_role else tuning_role)

add_plan-Splits :
    (held : List String) (p : CorpusPlan) (part : CorpusPartition)
    → RoleFits held p
    → Splits held (p.name ∷ []) part (add_plan p part)
unfolding add_plan
add_plan-Splits held p part fits = elim (Bool-cases (elem p.name held)) [
  | inl out ↦
      rw (fits, out)
        (record {
          tuning = rw out (sym (append-nil (names_of part.tuning)));
          held_out = rw out (names_of-append part.held_out (record p { role = held_out_role }));
        })
  | inr kept ↦
      rw (fits, kept)
        (record {
          tuning = rw kept (names_of-append part.tuning (record p { role = tuning_role }));
          held_out = rw kept (sym (append-nil (names_of part.held_out)));
        })
]

add_json_runs-Splits :
    (held : List String) (runs : List (String × String × Fields)) (part part' : CorpusPartition)
    → add_json_runs held runs part ≡ ok part'
    → Splits held (map (λ r. r.0) runs) part part'
unfolding add_json_runs
add_json_runs-Splits held [] part part' e =
    subst (λ x. Splits held [] part x) (ok_inj e) (Splits-nil held part)
add_json_runs-Splits held ((name, path, d) ∷ runs) part part' e =
    let (verdict, _, rest) = >>=-eq-ok (verdict_in d) _ e in
    Splits-append held (name ∷ []) (map (λ r. r.0) runs) part _ part'
      (add_plan-Splits held _ part refl) (add_json_runs-Splits held runs _ part' rest)

add_md_plans-Splits :
    (held : List String) (plans : List (String × String)) (part : CorpusPartition)
    → Splits held (map (λ r. r.0) plans) part (add_md_plans held plans part)
unfolding add_md_plans
add_md_plans-Splits held [] part = Splits-nil held part
add_md_plans-Splits held ((name, path) ∷ plans) part =
    Splits-append held (name ∷ []) (map (λ r. r.0) plans) part _ _
      (add_plan-Splits held _ part refl) (add_md_plans-Splits held plans _)

all-keep : (f : String → Bool) (xs : List String) → all f (keep f xs) ≡ true
all-keep f [] = refl
all-keep f (x ∷ xs) = ground (arith, all-keep f xs)

absent_of_split :
    (held : List String) (x : String) (ys : List String)
    → elem x held ≡ false
    → all (λ n. elem n held) ys ≡ true
    → elem x ys ≡ false
absent_of_split held x ys out h = elim (Bool-cases (elem x ys)) [
  | inl m ↦ absurd (ground (arith, out, all-elem (λ n. elem n held) x ys h m))
  | inr a ↦ a
]

disjoint_of_split :
    (held xs ys : List String)
    → all (λ n. not (elem n held)) xs ≡ true
    → all (λ n. elem n held) ys ≡ true
    → disjoint xs ys ≡ true
disjoint_of_split held [] ys h k = refl
disjoint_of_split held (x ∷ xs) ys h k =
    let (out, rest) = &&-eq-true (not (elem x held)) _ h in
    ground (
      arith,
      absent_of_split held x ys (ground (arith, out)) k,
      disjoint_of_split held xs ys rest k,
    )

-- Whatever the directories hold, even the same name in both, the names of the tuning plans are those
-- of the runs and then of the Markdown plans that are not held out, in their order and each as often
-- as it stands there, the names of the held-out plans are those that are, and no name is in both.
pub partition_corpus-names_of :
    (held : List String) (json_runs : List (String × String × Fields))
    (md_plans : List (String × String)) (part : CorpusPartition)
    → partition_corpus held json_runs md_plans ≡ ok part
    → let names = map (λ r. r.0) json_runs ++ map (λ r. r.0) md_plans in
      (names_of part.tuning ≡ keep (λ n. not (elem n held)) names)
      × (names_of part.held_out ≡ keep (λ n. elem n held) names)
      × (is_disjoint part ≡ true)
unfolding partition_corpus is_disjoint
partition_corpus-names_of held json_runs md_plans part h =
    let (mid, added, last) = >>=-eq-ok (add_json_runs held json_runs _) _ h in
    let names = map (λ r. r.0) json_runs ++ map (λ r. r.0) md_plans in
    let s =
      subst (λ x. Splits held names (record { tuning = []; held_out = [] }) x) (ok_inj last)
        (Splits-append held (map (λ r. r.0) json_runs) (map (λ r. r.0) md_plans) _ mid _
          (add_json_runs-Splits held json_runs _ mid added)
          (add_md_plans-Splits held md_plans mid)) in
    (
      s.tuning,
      s.held_out,
      disjoint_of_split held (names_of part.tuning) (names_of part.held_out)
          (rw s.tuning (all-keep (λ n. not (elem n held)) names))
          (rw s.held_out (all-keep (λ n. elem n held) names)),
    )
