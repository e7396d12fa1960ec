-- ===== src/Context/Assembled.antt =====
-- The context that `build_step_context` of epiphany_executor/context_builder.py assembles.
use mathlib.Core.Path.{subst}
use epiphany_executor.Prelude.{
  ℕ, ◌≤◌, String, Bool, true, false, not, ◌&&◌, ◌||◌, ◌≡◌, refl, sym, ◌∙◌, ap, inl, inr, Option,
  none, some, List, ok, >>=-eq-ok, ok_inj, Dict, elem, Distinct, keep, elem-sorted, elem-keep,
  is_empty, length, leb, arith, Bool-cases,
}
use epiphany_executor.Value.{Value, Fields, get}
use epiphany_executor.Contract.{Contract}
use epiphany_executor.Scheduler.Static.{StaticClass, is_local, static_effect_class}
use epiphany_executor.Scheduler.Dag.{Dag, prereqs}
use epiphany_executor.Scheduler.Cohort.{contract_at}
use epiphany_executor.Review.Delta.{propagate_forward_delta}
use epiphany_executor.Review.Delta.Roundtrip.{elem-propagate_forward_delta}
use epiphany_executor.Context.Tier.{
  ThinkingTier, minimal, deep, tier_index, max_tier, same_tier, suggested_tier,
}
use epiphany_executor.Context.Clobber.{OsPath, harness_forge_pack}
use epiphany_executor.Context.{
  raised_tier, allocate_thinking_tier, raise_to, apply_memory_priors, StepContext, look_behind_of,
  look_ahead_of, accommodate, Rationale, final_tier, build_step_context,
}

-- The reasons for which a step must think at the deepest tier.
abbrev pub must_be_deep : Contract → ℕ → List String → Bool
must_be_deep c fan_out clobber =
    not (is_local (static_effect_class c)) || (leb 3 fan_out || not (is_empty clobber))

allocate_deep :
    (c : Contract) (fan_out : ℕ) (k : StaticClass)
    → (not (is_local k) || leb 3 fan_out) ≡ true
    → (allocate_thinking_tier c fan_out k false).0 ≡ deep
unfolding allocate_thinking_tier raised_tier
allocate_deep c fan_out k h = ground arith

raise_to-le :
    (t : ThinkingTier) (s : Option ThinkingTier) → tier_index t ≤ tier_index (raise_to t s).0
raise_to-le t none = omega arith
raise_to-le t (some u) = ground arith

apply_memory_priors-le :
    (t : ThinkingTier) (priors : Fields) (r : ThinkingTier × List Rationale)
    → apply_memory_priors t priors ≡ ok r
    → tier_index t ≤ tier_index r.0
unfolding apply_memory_priors
apply_memory_priors-le t priors r h =
    let (s, e, last) = >>=-eq-ok (suggested_tier (get "suggested_tier" priors)) _ h in
    subst (λ (x : ThinkingTier × List Rationale). tier_index t ≤ tier_index x.0) (ok_inj last)
      (raise_to-le t s)

deep_of-le : (t : ThinkingTier) → 3 ≤ tier_index t → t ≡ deep
deep_of-le deep h = refl
deep_of-le minimal h = absurd (omega arith)
deep_of-le _ h = absurd (omega arith)

-- What is asked of the tier that a step ends with.
abbrev pub Floor : Contract → ℕ → List String → ThinkingTier → Type 0
Floor c fan_out clobber t =
    (tier_index (allocate_thinking_tier c fan_out (static_effect_class c) false).0 ≤ tier_index t)
    × ((not (must_be_deep c fan_out clobber) || same_tier t deep) ≡ true)

final_tier-Floor :
    (c : Contract) (fan_out : ℕ) (priors : Fields) (clobber : List String)
    (r : ThinkingTier × List Rationale)
    → final_tier c fan_out priors clobber ≡ ok r
    → Floor c fan_out clobber r.0
unfolding final_tier
final_tier-Floor c fan_out priors clobber r h =
    let a = allocate_thinking_tier c fan_out (static_effect_class c) false in
    let (primed, e, last) = >>=-eq-ok (apply_memory_priors a.0 priors) _ h in
    let up = apply_memory_priors-le a.0 priors primed e in
    let bottom = allocate_deep c fan_out (static_effect_class c) in
    elim (Bool-cases (is_empty clobber)) [
      | inl clear ↦
          let same : r.0 ≡ primed.0 =
            ap (λ (x : ThinkingTier × List Rationale). x.0) (sym (ok_inj (rw clear at last))) in
          ground (arith, up, bottom, deep_of-le primed.0, same, clear)
      | inr risky ↦
          let same : r.0 ≡ max_tier primed.0 deep =
            ap (λ (x : ThinkingTier × List Rationale). x.0) (sym (ok_inj (rw risky at last))) in
          ground (arith, up, same, risky)
    ]

-- In each assembled context, whatever the memory priors, the plan's pack and the step are, the tier
-- is no lower than the one allocated to the step, and it is the deepest when the step's effect is
-- not provably local, when at least three steps depend on it, or when an output is at risk.
pub build_step_context-Floor {ℓ} :
    {D : Type ℓ} (os : OsPath) (contracts : Dict Contract) (step_id : String) (dag : Dag)
    (accepted : List String) (deltas : Dict D) (plan_chars ledger_chars : ℕ)
    (priors plan_meta : Fields) (step : Value) (c : Contract) (ctx : StepContext D)
    → contract_at contracts step_id ≡ ok c
    → build_step_context os contracts step_id dag accepted deltas plan_chars ledger_chars priors
        plan_meta step
      ≡ ok ctx
    → Floor c (length ctx.look_ahead) ctx.self_clobber_paths ctx.thinking_tier
unfolding build_step_context
build_step_context-Floor os contracts step_id dag accepted deltas plan_chars ledger_chars priors
      plan_meta step c ctx found h =
    let (pack, e, h1) = >>=-eq-ok (harness_forge_pack plan_meta) _ (rw found at h) in
    let (extra, f, h2) = >>=-eq-ok (accommodate os pack step) _ h1 in
    let (tier, g, h3) =
      >>=-eq-ok (final_tier c (length (look_ahead_of dag step_id)) priors extra.clobber) _ h2 in
    subst
      (λ (x : StepContext _). Floor c (length x.look_ahead) x.self_clobber_paths x.thinking_tier)
      (ok_inj h3)
      (final_tier-Floor c (length (look_ahead_of dag step_id)) priors extra.clobber tier g)

-- The look-behind of an assembled context has exactly the accepted prerequisites of the step, and
-- its look-ahead exactly the steps that depend on it, for a graph with distinct keys.
pub build_step_context-neighbours {ℓ} :
    {D : Type ℓ} (os : OsPath) (contracts : Dict Contract) (step_id : String) (dag : Dag)
    (accepted : List String) (deltas : Dict D) (plan_chars ledger_chars : ℕ)
    (priors plan_meta : Fields) (step : Value) (ctx : StepContext D) (s : String)
    → Distinct dag
    → build_step_context os contracts step_id dag accepted deltas plan_chars ledger_chars priors
        plan_meta step
      ≡ ok ctx
    → (elem s ctx.look_behind ≡ (elem s (prereqs dag step_id) && elem s accepted))
      × (elem s ctx.look_ahead ≡ elem step_id (prereqs dag s))
unfolding build_step_context look_behind_of look_ahead_of
build_step_context-neighbours os contracts step_id dag accepted deltas plan_chars ledger_chars
      priors plan_meta step ctx s d h =
    let (c, found, h0) = >>=-eq-ok (contract_at contracts step_id) _ h in
    let (pack, e, h1) = >>=-eq-ok (harness_forge_pack plan_meta) _ h0 in
    let (extra, f, h2) = >>=-eq-ok (accommodate os pack step) _ h1 in
    let (tier, g, h3) =
      >>=-eq-ok (final_tier c (length (look_ahead_of dag step_id)) priors extra.clobber) _ h2 in
    subst
      (λ (x : StepContext _).
        (elem s x.look_behind ≡ (elem s (prereqs dag step_id) && elem s accepted))
        × (elem s x.look_ahead ≡ elem step_id (prereqs dag s)))
      (ok_inj h3)
      (
        elem-sorted s (keep (λ q. elem q accepted) (prereqs dag step_id))
            ∙ elem-keep s (λ q. elem q accepted) (prereqs dag step_id),
        elem-sorted s (propagate_forward_delta dag step_id)
            ∙ elem-propagate_forward_delta dag step_id s d,
      )
