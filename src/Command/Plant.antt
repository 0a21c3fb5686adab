-- ===== src/Command/Plant.antt =====
-- `plant` of server/internal/player/plant.go.
use supernova_classic_farm.Base.{
  ℕ, Bool, true, false, not, ◌||◌, none, some, List, [], ◌∷◌, ◌++◌, ok, ◌>>=◌, ◌>>◌, ◌==◌,
}
use supernova_classic_farm.Base.Int.{pos}
use supernova_classic_farm.Base.Bytes.{big_endian32}
use supernova_classic_farm.Base.Map.{lookup, insert, read}
use supernova_classic_farm.Plot.{PlotState, Plot}
use supernova_classic_farm.Growth.{estimate_mature_at_ms}
use supernova_classic_farm.Wire.{
  ErrorCode, failure_of, empty_patch, Payload, PayloadKind, Request, Response,
}
use supernova_classic_farm.Config.{CropConfig, ConfigSnapshot, crop_for_seed}
use supernova_classic_farm.Player.{State, increment_task, advance_versions}
use supernova_classic_farm.Player.Views.{plot_view, current_chapter}
use supernova_classic_farm.Idempotency.{Decision, Codec, fingerprint_head, run}
use supernova_classic_farm.Command.{
  reject_if, require, otherwise, config_unavailable, failure_at, consume_one, consumed_patch,
}

pub record PlantRequest : Type 0 where
  pub plot_id : ℕ
  pub seed_item_id : ℕ

-- The bytes that `plantFingerprint` hashes.
unfoldable pub plant_fingerprint : ℕ → Request → PlantRequest → List ℕ
plant_fingerprint caller request plant =
    fingerprint_head caller request
    ++ (big_endian32 plant.plot_id ++ big_endian32 plant.seed_item_id)

abbrev pub is_empty : PlotState → Bool
is_empty PlotState.empty = true
is_empty _ = false

-- The plot that `plant` writes.
unfoldable pub planted_plot : Plot → CropConfig → ℕ → ℕ → Plot
planted_plot plot crop now_ms estimate = record {
  id = plot.id;
  state = PlotState.growing;
  crop_id = crop.crop_id;
  crop_item_id = crop.crop_item_id;
  crop_config_version = crop.config_version;
  planted_at_ms = now_ms;
  maturity_value_scaled9 = crop.maturity_value_scaled9;
  base_growth_rate_scaled6 = crop.base_growth_rate_scaled6;
  base_yield = crop.base_yield;
  stolen_quantity = 0;
  settled_growth_value_scaled9 = pos 0;
  last_settled_at_ms = now_ms;
  estimated_mature_at_ms = some estimate;
  fertilizer_effect = none;
  pest_effect = none;
  steal_count = 0;
  steal_quantity = crop.steal_quantity;
  max_steal_times = crop.max_steal_times;
  protected_owner_yield = crop.protected_owner_yield;
  steal_visitor_player_ids = [];
}

module _ {B : Type 0} where
  unfoldable pub plant_decide : ConfigSnapshot → ℕ → PlantRequest → List ℕ → State B → Decision B
  plant_decide config now_ms plant request_id state = do
    reject_if state (plant.plot_id == 0 || plant.seed_item_id == 0)
        (failure_of ErrorCode.invalid_argument)
    plot ← require state (lookup plant.plot_id state.plots) (failure_of ErrorCode.plot_not_found)
    reject_if state (not (is_empty plot.state)) (failure_at ErrorCode.plot_state_conflict plot)
    crop ← require state (crop_for_seed config plant.seed_item_id) config_unavailable
    reject_if state (not crop.enabled) (failure_of ErrorCode.config_entry_disabled)
    let seed_quantity = read state.inventory plant.seed_item_id
    reject_if state (seed_quantity == 0) (failure_of ErrorCode.item_not_owned)
    estimate ←
        otherwise state
          (estimate_mature_at_ms now_ms crop.maturity_value_scaled9 crop.base_growth_rate_scaled6)
          config_unavailable
    let planted = planted_plot plot crop now_ms estimate
    let changed =
        advance_versions
          (record state {
            inventory = consume_one plant.seed_item_id state.inventory;
            plots = insert plant.plot_id planted state.plots;
            tasks = increment_task 2 state.tasks;
          })
          config.version now_ms
    ok (
      changed,
      Payload.plant_response (record {
        consumed_seed_item_id = plant.seed_item_id;
        patch = consumed_patch plant.seed_item_id seed_quantity (record empty_patch {
          plot_upserts = plot_view planted ∷ [];
          current_chapter = some (current_chapter changed);
        });
      }),
    )

  unfoldable pub plant :
      Codec B
      → State B
      → ℕ
      → Request
      → PlantRequest
      → ConfigSnapshot
      → ℕ
      → State B × Response × Bool
  plant codec state caller request plant_request config now_ms =
      run codec PayloadKind.plant (plant_decide config now_ms plant_request) state caller request
        (codec.sha256 (plant_fingerprint caller request plant_request)) config.version now_ms
