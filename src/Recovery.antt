-- ===== src/Recovery.antt =====
-- epiphany_executor/recovery.py: the recovery menu, the halt of a failed step and the rollback of
-- a wave. A worktree is named by a text, and discarding is an operation on the worktrees.
pub mod Menu
use epiphany_executor.Prelude.{
  ℕ, String, Bool, true, false, not, List, [], ◌∷◌, ◌++◌, Result, ok, ◌>>◌, guard, assertion_error,
  if◌then◌else◌,
}
use epiphany_executor.Value.{Value}
use epiphany_executor.Contract.{Contract}
use epiphany_executor.Lifecycle.{LifecycleState, accepted, failed, same_state}
use epiphany_executor.Scheduler.Static.{static_effect_class, is_external}

pub data RecoveryOption : Type 0 where
  retry rollback fork skip_with_waiver halt_for_human : RecoveryOption

-- `menu.insert(1, ROLLBACK)`, then `menu.append(SKIP_WITH_WAIVER)`
unfoldable pub recovery_menu : Contract → Bool → List RecoveryOption
recovery_menu contract downstream_safe =
    (if is_external (static_effect_class contract)
      then retry ∷ fork ∷ halt_for_human ∷ []
      else retry ∷ rollback ∷ fork ∷ halt_for_human ∷ [])
    ++ (if downstream_safe then skip_with_waiver ∷ [] else [])

pub record HaltState : Type 0 where
  pub step_id : Value
  pub lifecycle_state : LifecycleState
  pub checkpoint_seq : ℕ
  pub menu : List RecoveryOption
  pub reason : String
  pub not_accepted : Bool
  pub forbidden_rollback : Bool

-- the constructor with its `__post_init__`
unfoldable pub make_halt : HaltState → Result HaltState
make_halt h = do guard (not (same_state h.lifecycle_state accepted)) assertion_error; ok h

unfoldable pub on_verify_fail : Contract → ℕ → Bool → String → Result HaltState
unfolding recovery_menu make_halt
on_verify_fail contract checkpoint_seq downstream_safe reason = make_halt (record {
  step_id = contract.step_id;
  lifecycle_state = failed;
  checkpoint_seq = checkpoint_seq;
  menu = recovery_menu contract downstream_safe;
  reason = reason;
  not_accepted = true;
  forbidden_rollback = is_external (static_effect_class contract);
})

pub record WaveRollbackResult : Type 0 where
  pub discarded_worktrees : List String
  pub recovery_checkpoint_seq : ℕ
  pub committed_state_advanced : Bool

-- the loop that discards the staged worktrees, on the state of the worktrees
unfoldable pub discard_all {ℓ} : {W : Type ℓ} → (String → W → W) → List String → W → W
discard_all discard [] w = w
discard_all discard (wt ∷ wts) w = discard_all discard wts (discard wt w)

unfoldable pub wave_rollback {ℓ} :
    {W : Type ℓ} → (String → W → W) → List String → ℕ → W → WaveRollbackResult × W
unfolding discard_all
wave_rollback discard staged pre_wave w = (
  record {
    discarded_worktrees = staged;
    recovery_checkpoint_seq = pre_wave;
    committed_state_advanced = false;
  },
  discard_all discard staged w,
)
