-- ===== src/Context/Tier.antt =====
-- `ThinkingTier` of epiphany_executor/context_builder.py: the tiers, their order and their names.
use epiphany_executor.Prelude.{
  ℕ, String, Bool, Result, ok, err, type_error, leb, eqb, if◌then◌else◌, ◌==◌,
}
use mathlib.Core.Option
use epiphany_executor.Value.{Value, str, arr, obj}

pub data ThinkingTier : Type 0 where
  none minimal standard deep : ThinkingTier

-- `_TIER_ORDER.index(t)`
abbrev pub tier_index : ThinkingTier → ℕ
tier_index none = 0
tier_index minimal = 1
tier_index standard = 2
tier_index deep = 3

abbrev pub max_tier : ThinkingTier → ThinkingTier → ThinkingTier
max_tier a b = if leb (tier_index b) (tier_index a) then a else b

-- `a == b`
abbrev pub same_tier : ThinkingTier → ThinkingTier → Bool
same_tier a b = eqb (tier_index a) (tier_index b)

-- `ThinkingTier(text)`, where the text is the value of a tier
unfoldable pub parse_tier : String → Option.Option ThinkingTier
parse_tier s =
    if s == "none"
    then Option.some none
    else if s == "minimal"
    then Option.some minimal
    else if s == "standard"
    then Option.some standard
    else if s == "deep"
    then Option.some deep
    else Option.none

-- `suggested in {t.value for t in ThinkingTier}`; a list or a dict has no hash.
unfoldable pub suggested_tier : Value → Result (Option.Option ThinkingTier)
unfolding parse_tier
suggested_tier (str s) = ok (parse_tier s)
suggested_tier (arr vs) = err type_error
suggested_tier (obj fs) = err type_error
suggested_tier v = ok Option.none
