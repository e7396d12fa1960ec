-- ===== src/EffectClass/Markers.antt =====
-- The markers of epiphany_executor/effect_class.py inside longer commands, and in the steps.
use epiphany_executor.Prelude.{
  ℕ, String, Bool, true, false, ◌≡◌, refl, ◌∙◌, ap, List, [], ◌∷◌, ◌++◌, map, any, is_empty, codes,
  lower, strip, starts_with, contains, if◌then◌else◌, arith,
}
use epiphany_executor.Value.{Value, to_text}
use epiphany_executor.Contract.{Contract}
use epiphany_executor.Scheduler.Static.{irreversible_markers, names_any}
use epiphany_executor.EffectClass.{
  pure, local_mutating, externally_irreversible, local_mutating_markers, readonly_prefixes,
  classify_low, classify_codes, classify_command, is_external, GateDecision, gating_decision,
  classify_step, step_is_gated,
}

starts_with-append_right : (m s t : List ℕ) → starts_with s m ≡ true → starts_with (s ++ t) m ≡ true
unfolding starts_with
starts_with-append_right [] s t h = refl
starts_with-append_right (d ∷ m) [] t h = cc
starts_with-append_right (d ∷ m) (c ∷ s) t h = ground (arith, starts_with-append_right m s t)

contains-nil : (t : List ℕ) → contains [] t ≡ true
unfolding contains starts_with
contains-nil [] = refl
contains-nil (c ∷ t) = refl

contains-append_right : (m s t : List ℕ) → contains m s ≡ true → contains m (s ++ t) ≡ true
unfolding contains
contains-append_right [] [] t h = contains-nil t
contains-append_right (d ∷ m) [] t h = cc
contains-append_right m (c ∷ s) t h =
    ground (arith, starts_with-append_right m (c ∷ s) t, contains-append_right m s t)

contains-append_left : (m s t : List ℕ) → contains m t ≡ true → contains m (s ++ t) ≡ true
unfolding contains
contains-append_left m [] t h = h
contains-append_left m (c ∷ s) t h = ground (arith, contains-append_left m s t)

names_any-inside :
    (markers : List String) (before low after : List ℕ)
    → names_any markers low ≡ true
    → names_any markers (before ++ low ++ after) ≡ true
names_any-inside [] before low after h = cc
names_any-inside (m ∷ ms) before low after h = ground (
  arith,
  names_any-inside ms before low after,
  contains-append_left (codes m) before low,
  contains-append_right (codes m) (before ++ low) after,
)

is_empty-names_any :
    (low : List ℕ) → names_any irreversible_markers low ≡ true → is_empty low ≡ false
unfolding contains starts_with
is_empty-names_any [] h = cc
is_empty-names_any (c ∷ low) h = refl

-- The test of one step: some action, without a token, is externally irreversible.
abbrev pub some_irreversible : List Value → Bool
some_irreversible actions = any (λ a. is_external (classify_command a)) actions

any_gated :
    (actions : List Value)
    → any
        (λ (d : GateDecision). d.gated)
        (map (λ a. gating_decision (classify_command a) false) actions)
      ≡ some_irreversible actions
unfolding gating_decision
any_gated [] = refl
any_gated (a ∷ actions) = ground (arith, any_gated actions)

some_irreversible-inside :
    (before after : List Value) (a : Value)
    → is_external (classify_command a) ≡ true
    → some_irreversible (before ++ a ∷ after) ≡ true
some_irreversible-inside [] after a h = ground arith
some_irreversible-inside (b ∷ before) after a h =
    ground (arith, some_irreversible-inside before after a h)

-- The classification fails closed: a normalised command with an irreversible marker anywhere in it,
-- whatever stands before and after, is externally irreversible, be it marked as read-only or as
-- local too.
pub classify_low-embedded :
    (before low after : List ℕ)
    → names_any irreversible_markers low ≡ true
    → classify_low (before ++ low ++ after) ≡ externally_irreversible
unfolding classify_low
classify_low-embedded before low after h =
    let inside = names_any-inside irreversible_markers before low after h in
    rw (is_empty-names_any (before ++ low ++ after) inside, inside) refl

pure_when :
    (e a b c : Bool)
    → (if e
        then externally_irreversible
        else if a
        then externally_irreversible
        else if b
        then local_mutating
        else if c
        then pure
        else externally_irreversible)
      ≡ pure
    → (a ≡ false) × (b ≡ false) × (c ≡ true)
pure_when e a b c h = ground arith

-- A command is classified as pure only when it has no irreversible marker and no marker of a local
-- change, and begins as one of the read-only commands.
pub classify_low_pure :
    (low : List ℕ)
    → classify_low low ≡ pure
    → (names_any irreversible_markers low ≡ false)
      × (names_any local_mutating_markers low ≡ false)
      × (any (λ p. starts_with low (codes p)) readonly_prefixes ≡ true)
unfolding classify_low
classify_low_pure low h =
    pure_when (is_empty low) (names_any irreversible_markers low)
      (names_any local_mutating_markers low)
      (any (λ p. starts_with low (codes p)) readonly_prefixes) h

-- A step is gated as soon as one of its actions, in any place of the list, has an irreversible
-- marker anywhere in its stripped and lower-cased text.
pub step_is_gated_marked :
    (c : Contract) (before after : List Value) (action : Value) (front low back : List ℕ)
    → c.actions ≡ before ++ action ∷ after
    → lower (strip (codes (to_text action))) ≡ front ++ low ++ back
    → names_any irreversible_markers low ≡ true
    → step_is_gated c ≡ true
unfolding step_is_gated classify_step classify_command classify_codes
step_is_gated_marked c before after action front low back e f h =
    any_gated c.actions
    ∙ ap some_irreversible e
    ∙ some_irreversible-inside before after action (
        ap (λ t. is_external (classify_low t)) f
        ∙ ap is_external (classify_low-embedded front low back h))
