-- ===== src/Recovery/Menu.antt =====
-- The halt of epiphany_executor/recovery.py after a failed verification, and its menu.
use epiphany_executor.Prelude.{
  String, ℕ, Bool, true, false, not, ◌&&◌, ◌||◌, ◌≡◌, refl, List, [], ◌∷◌, ok, arith, ltb, any,
}
use epiphany_executor.Value.{Value}
use epiphany_executor.Contract.{Contract, footprint_of}
use epiphany_executor.Lifecycle.{failed}
use epiphany_executor.Scheduler.Static.{
  is_irreversible_output, static_effect_class, is_external, count_outputs,
  count_irreversible_effects,
}
use epiphany_executor.Recovery.{
  RecoveryOption, retry, rollback, fork, skip_with_waiver, halt_for_human, HaltState, make_halt,
  recovery_menu, on_verify_fail,
}

abbrev pub same_option : RecoveryOption → RecoveryOption → Bool
same_option retry retry = true
same_option rollback rollback = true
same_option fork fork = true
same_option skip_with_waiver skip_with_waiver = true
same_option halt_for_human halt_for_human = true
same_option _ _ = false

abbrev pub offers : RecoveryOption → List RecoveryOption → Bool
offers o [] = false
offers o (p ∷ ps) = same_option p o || offers o ps

count_outputs-positive :
    (outs : List Value) → ltb 0 (count_outputs outs) ≡ any is_irreversible_output outs
unfolding count_outputs
count_outputs-positive [] = refl
count_outputs-positive (o ∷ os) = ground (arith, count_outputs-positive os)

count_irreversible_effects-positive :
    (c : Contract) → ltb 0 (count_irreversible_effects c) ≡ is_external (static_effect_class c)
unfolding count_irreversible_effects static_effect_class
count_irreversible_effects-positive c =
    ground (arith, count_outputs-positive (footprint_of c).declared_outputs)

-- A failed verification always ends in a halt in FAILED, never ACCEPTED. The menu offers a retry, a
-- fork and the human in each case, a rollback exactly when the step counts no irreversible effect,
-- and the skip exactly when that is safe downstream.
pub on_verify_fail-menu :
    (contract : Contract) (checkpoint : ℕ) (safe : Bool) (reason : String)
    → (h : HaltState) × (on_verify_fail contract checkpoint safe reason ≡ ok h)
      × (h.lifecycle_state ≡ failed)
      × (offers retry h.menu && offers fork h.menu && offers halt_for_human h.menu ≡ true)
      × (offers rollback h.menu ≡ not (ltb 0 (count_irreversible_effects contract)))
      × (h.forbidden_rollback ≡ ltb 0 (count_irreversible_effects contract))
      × (offers skip_with_waiver h.menu ≡ safe)
unfolding on_verify_fail make_halt recovery_menu
on_verify_fail-menu contract checkpoint safe reason =
    let e = count_irreversible_effects-positive contract in
    (
      record {
        step_id = contract.step_id;
        lifecycle_state = failed;
        checkpoint_seq = checkpoint;
        menu = recovery_menu contract safe;
        reason = reason;
        not_accepted = true;
        forbidden_rollback = is_external (static_effect_class contract);
      },
      refl,
      refl,
      ground arith,
      ground (arith, e),
      ground (arith, e),
      ground arith,
    )
