-- ===== src/Plot.antt =====
-- The plot of a farm and the timed effects on it (server/internal/player/state.go, and the
-- messages TimedEffectRecord and PlotState of proto/classicfarm/v1).
-- Timestamps are Unix milliseconds, which are never negative: plain numbers, with the bound
-- 2^63 - 1 wherever the code tests it. The scaled growth values are int64 fields whose sign the
-- code tests, so they are integers.
use supernova_classic_farm.Base.{ℕ, List, [], Option, none}
use supernova_classic_farm.Base.Int.{ℤ, pos}

pub data PlotState : Type 0 where
  unspecified empty growing mature need_cleanup : PlotState

pub data EffectKind : Type 0 where
  unspecified fertilizer pest : EffectKind

pub record TimedEffect : Type 0 where
  pub effect_instance_id : List ℕ
  pub effect_kind : EffectKind
  pub effect_item_or_pest_id : ℕ
  pub source_player_id : Option ℕ
  pub config_version : ℕ
  pub modifier : Option ℤ
  pub start_at_ms : ℕ
  pub end_at_ms : ℕ

pub record Plot : Type 0 where
  pub id : ℕ
  pub state : PlotState
  pub crop_id : ℕ
  pub crop_item_id : ℕ
  pub crop_config_version : ℕ
  pub planted_at_ms : ℕ
  pub maturity_value_scaled9 : ℤ
  pub base_growth_rate_scaled6 : ℤ
  pub base_yield : ℕ
  pub stolen_quantity : ℕ
  pub settled_growth_value_scaled9 : ℤ
  pub last_settled_at_ms : ℕ
  pub estimated_mature_at_ms : Option ℕ
  pub fertilizer_effect : Option TimedEffect
  pub pest_effect : Option TimedEffect
  pub steal_count : ℕ
  pub steal_quantity : ℕ
  pub max_steal_times : ℕ
  pub protected_owner_yield : ℕ
  pub steal_visitor_player_ids : List ℕ

-- `&Plot{ID: id, State: plotv1.PlotState_EMPTY}`, every other field at its zero value.
unfoldable pub empty_plot : ℕ → Plot
empty_plot plot_id = record {
  id = plot_id;
  state = PlotState.empty;
  crop_id = 0;
  crop_item_id = 0;
  crop_config_version = 0;
  planted_at_ms = 0;
  maturity_value_scaled9 = pos 0;
  base_growth_rate_scaled6 = pos 0;
  base_yield = 0;
  stolen_quantity = 0;
  settled_growth_value_scaled9 = pos 0;
  last_settled_at_ms = 0;
  estimated_mature_at_ms = none;
  fertilizer_effect = none;
  pest_effect = none;
  steal_count = 0;
  steal_quantity = 0;
  max_steal_times = 0;
  protected_owner_yield = 0;
  steal_visitor_player_ids = [];
}
