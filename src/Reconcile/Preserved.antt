-- ===== src/Reconcile/Preserved.antt =====
-- The live tree that `reconcile` of tools/reconcile_forge.py leaves.
use epiphany_executor.Prelude.{
  String, Bool, true, false, not, ◌&&◌, ◌≡◌, refl, sym, ◌∙◌, ap, Option, none, some, List, [], ◌∷◌,
  ok, ok_inj, insert, lookup, lookup-insert, is_some, if◌then◌else◌, ◌==◌, eq_iff, eq_refl, arith,
  Bool-cases, inl, inr,
}
use epiphany_executor.Value.{Value}
use epiphany_executor.Reconcile.{
  Tree, is_orphan, live_module_refs, Reconciled, reconcile_file, reconcile_files, Manifest,
  reconcile,
}

abbrev no_content : Option String
no_content = none

abbrev pub first_some : Option String → Option String → Option String
first_some none b = b
first_some (some a) b = some a

-- What a path has afterwards: what it had, else what is staged for it, unless that is an orphan.
abbrev pub merged : Option (List String) → Tree → Tree → String → Option String
merged refs staged live p =
    first_some (lookup p live) (if is_orphan refs p then none else lookup p staged)

first_some_none : (a : Option String) → first_some a none ≡ a
first_some_none none = refl
first_some_none (some s) = refl

placed :
    (found : Option String) (orphan : Bool) (content : String) (live : Tree) (p : String)
    → lookup p live ≡ found
    → lookup p (if is_some found then live else if orphan then live else insert p content live)
      ≡ first_some found (if true && not orphan then some content else none)
placed (some s) orphan content live p e = e
placed none true content live p e = e
placed none false content live p e = lookup-insert p p content live ∙ rw (eq_refl p) refl

untouched :
    (found orphan : Bool) (rel content : String) (live : Tree) (p : String)
    → rel == p ≡ false
    → lookup p (if found then live else if orphan then live else insert rel content live)
      ≡ lookup p live
untouched true orphan rel content live p e = refl
untouched false true rel content live p e = refl
untouched false false rel content live p e = lookup-insert rel p content live ∙ rw e refl

live-reconcile_file :
    (refs : Option (List String)) (rel content : String) (r : Reconciled)
    → (reconcile_file refs rel content r).live ≡ (
        if is_some (lookup rel r.live)
        then r.live
        else if is_orphan refs rel
        then r.live
        else insert rel content r.live)
unfolding reconcile_file
live-reconcile_file refs rel content r = ground arith

lookup-reconcile_file :
    (refs : Option (List String)) (rel content : String) (r : Reconciled) (p : String)
    → lookup p (reconcile_file refs rel content r).live
      ≡ first_some
          (lookup p r.live)
          (if rel == p && not (is_orphan refs p) then some content else none)
lookup-reconcile_file refs rel content r p = elim (Bool-cases (rel == p)) [
  | inl same ↦
      ap (lookup p) (live-reconcile_file refs rel content r)
      ∙ rw ((eq_iff rel p).0 same, eq_refl p)
          (placed (lookup p r.live) (is_orphan refs p) content r.live p refl)
  | inr other ↦
      ap (lookup p) (live-reconcile_file refs rel content r)
      ∙ (untouched (is_some (lookup rel r.live)) (is_orphan refs rel) rel content r.live p other
          ∙ rw other (sym (first_some_none (lookup p r.live))))
]

next_merged :
    (found : Option String) (orphan here : Bool) (content : String) (later : Option String)
    → first_some
        (first_some found (if here && not orphan then some content else none))
        (if orphan then none else later)
      ≡ first_some found (if orphan then none else if here then some content else later)
next_merged (some s) orphan here content later = refl
next_merged none true true content later = refl
next_merged none true false content later = refl
next_merged none false true content later = refl
next_merged none false false content later = refl

lookup-reconcile_files :
    (refs : Option (List String)) (staged : Tree) (r : Reconciled) (p : String)
    → lookup p (reconcile_files refs staged r).live ≡ merged refs staged r.live p
unfolding reconcile_files
lookup-reconcile_files refs [] r p =
    sym (first_some_none (lookup p r.live))
    ∙ ap (first_some (lookup p r.live)) (nothing (is_orphan refs p))
  where
    nothing : (o : Bool) → no_content ≡ (if o then no_content else no_content)
    nothing true = refl
    nothing false = refl
lookup-reconcile_files refs ((rel, content) ∷ staged) r p =
    lookup-reconcile_files refs staged (reconcile_file refs rel content r) p
    ∙ (ap (λ o. first_some o (if is_orphan refs p then none else lookup p staged))
          (lookup-reconcile_file refs rel content r p)
        ∙ next_merged (lookup p r.live) (is_orphan refs p) (rel == p) content (lookup p staged))

-- A reconcile that returns loses no file of the live tree: each path has afterwards what it had,
-- and a path that had nothing has what is staged for it, unless that is a module that the live
-- graph does not name.
pub reconcile-merged :
    (staging live live' : Tree) (graph : Option Value) (refs : Option (List String))
    (manifest : Manifest) (p : String)
    → live_module_refs graph ≡ ok refs
    → reconcile staging live graph ≡ ok (live', manifest)
    → lookup p live' ≡ merged refs staging live p
unfolding reconcile
reconcile-merged staging live live' graph refs manifest p named h =
    ap (λ (x : Tree × Manifest). lookup p x.0) (sym (ok_inj (rw named at h)))
    ∙ lookup-reconcile_files refs staging
        (record { live = live; added = []; preserved = []; skipped_orphans = [] }) p
