-- ===== src/Review/Sentinel.antt =====
-- `Sentinel` of epiphany_executor/review.py: the background check for regressions with its latch.
pub mod Firing
pub mod History
use epiphany_executor.Prelude.{
  ℕ, ◌+◌, String, Bool, true, false, not, ◌&&◌, ◌||◌, Option, none, some, List, [], ◌∷◌,
  if◌then◌else◌, ◌==◌, eqb,
}
use epiphany_executor.Value.{end}
use epiphany_executor.Ledger.{LedgerEntry, LedgerApi}

pub record Latch : Type 0 where
  pub step : String
  pub at : ℕ

-- `key in self._latched`
abbrev pub same_latch : Latch → Latch → Bool
same_latch a b = a.step == b.step && eqb a.at b.at

abbrev pub latched_in : Latch → List Latch → Bool
latched_in k [] = false
latched_in k (l ∷ ls) = same_latch l k || latched_in k ls

pub record Sentinel : Type 0 where
  pub epoch : ℕ
  pub latched : List Latch

abbrev pub fresh : Sentinel
fresh = record { epoch = 0; latched = [] }

unfoldable pub advance_epoch : Sentinel → Sentinel
advance_epoch s = record s { epoch = s.epoch + 1 }

pub record SentinelSignal : Type 0 where
  pub regressed_step : String
  pub signal_epoch : ℕ
  pub forward_delta : LedgerEntry

unfoldable pub forward_delta_of : String → ℕ → LedgerEntry
forward_delta_of sid epoch = record {
  kind = some "sentinel-regression-forward-delta";
  node = some sid;
  lifecycle_state = none;
  effect_ledger_cursor = none;
  depth = none;
  epoch = some epoch;
  other = end;
}

module _ (api : LedgerApi) where
  open api use {Ledger, append}

  pub record Swept : Type 0 where
    pub sentinel : Sentinel
    pub ledger : Ledger
    pub signals : List SentinelSignal

  -- The loop of `sweep`. `reassert` also sees how many steps were asked before, so that it may
  -- answer differently each time.
  unfoldable pub sweep_steps : (ℕ → String → Bool) → ℕ → List String → Sentinel → Ledger → Swept
  unfolding forward_delta_of
  sweep_steps reassert n [] s l = record { sentinel = s; ledger = l; signals = [] }
  sweep_steps reassert n (sid ∷ sids) s l =
      let key : Latch = record { step = sid; at = s.epoch } in
      let quiet = sweep_steps reassert (n + 1) sids s l in
      let fd = forward_delta_of sid s.epoch in
      let rest =
        sweep_steps reassert (n + 1) sids (record s { latched = key ∷ s.latched }) (append l fd) in
      let signal : SentinelSignal = record {
        regressed_step = sid;
        signal_epoch = s.epoch;
        forward_delta = fd;
      } in
      if reassert n sid || latched_in key s.latched
      then quiet
      else record rest { signals = signal ∷ rest.signals }

  unfoldable pub sweep : (ℕ → String → Bool) → List String → Bool → Sentinel → Ledger → Swept
  unfolding sweep_steps
  sweep reassert passed_steps true s l = record { sentinel = s; ledger = l; signals = [] }
  sweep reassert passed_steps false s l = sweep_steps reassert 0 passed_steps s l
