-- ===== src/Command/Harvest.antt =====
-- `harvest` of server/internal/player/harvest.go.
use supernova_classic_farm.Base.{
  ℕ, ◌+◌, ◌-◌, Bool, not, ◌&&◌, none, some, List, [], ◌∷◌, ◌++◌, Result, ok, ◌>>=◌, ◌>>◌, ◌==◌, ltb,
  leb, if◌then◌else◌, u32, length,
}
use supernova_classic_farm.Base.Int.{pos}
use supernova_classic_farm.Base.Bytes.{big_endian32}
use supernova_classic_farm.Base.Map.{lookup, insert, read}
use supernova_classic_farm.Plot.{PlotState, Plot}
use supernova_classic_farm.Growth.{is_growing}
use supernova_classic_farm.Wire.{
  ErrorCode, Failure, failure_of, PlayerStatePatch, empty_patch, Payload, PayloadKind, Request,
  Response,
}
use supernova_classic_farm.Config.{ConfigSnapshot}
use supernova_classic_farm.Player.{
  State, increment_task, advance_versions, ensure_career, checked_add_uint64, unlock_crop,
}
use supernova_classic_farm.Player.Views.{
  is_mature, plot_view, current_chapter, career_view, compendium_view,
}
use supernova_classic_farm.Idempotency.{Decision, Codec, fingerprint_head, run}
use supernova_classic_farm.Command.{reject_if, require, failure_at}

abbrev pub inventory_type_limit : ℕ
inventory_type_limit = 100

abbrev pub inventory_stack_limit : ℕ
inventory_stack_limit = 300

-- The bytes that `harvestFingerprint` hashes; the request is its one field, the plot ID.
unfoldable pub harvest_fingerprint : ℕ → Request → ℕ → List ℕ
harvest_fingerprint caller request plot_id = fingerprint_head caller request ++ big_endian32 plot_id

-- `plot.BaseYield - plot.StolenQuantity`, in uint32 arithmetic.
unfoldable pub harvested_quantity : Plot → ℕ
harvested_quantity plot = u32 (plot.base_yield + 4294967296 - plot.stolen_quantity)

-- The plot after its harvest.
unfoldable pub harvested_plot : Plot → Plot
harvested_plot plot = record plot {
  state = PlotState.need_cleanup;
  maturity_value_scaled9 = pos 0;
  base_growth_rate_scaled6 = pos 0;
  settled_growth_value_scaled9 = pos 0;
  last_settled_at_ms = 0;
  estimated_mature_at_ms = none;
  fertilizer_effect = none;
  pest_effect = none;
}

module _ {B : Type 0} where
  -- What a positive harvest adds: the crop, the career total and the compendium entry. An overflow
  -- of the total is refused; a missing career record has total 0 and cannot overflow.
  unfoldable pub gather : State B → Plot → ℕ → Result (State B × Failure) (State B)
  gather state plot quantity =
      if quantity == 0
      then ok state
      else (let career = ensure_career state.career in
          do
            next ←
                require state (checked_add_uint64 career.total_harvested_crop_quantity quantity)
                  (failure_of ErrorCode.invalid_argument)
            ok (record state {
              inventory =
                  insert plot.crop_item_id (u32 (read state.inventory plot.crop_item_id + quantity))
                    state.inventory;
              career = some (record career { total_harvested_crop_quantity = next });
              crop_compendium = unlock_crop state.crop_compendium plot.crop_id;
            }))

  harvest_patch : State B → Plot → ℕ → PlayerStatePatch
  harvest_patch changed plot quantity =
      let patch = record empty_patch {
        plot_upserts = plot_view plot ∷ [];
        current_chapter = some (current_chapter changed);
        career = some (career_view changed);
        crop_compendium = some (compendium_view changed);
      } in
      if quantity == 0 then patch else record patch {
        inventory_upserts =
            record {
              item_id = plot.crop_item_id;
              quantity = read changed.inventory plot.crop_item_id;
            }
            ∷ [];
      }

  -- The state with the harvested plot put back, and its versions advanced.
  unfoldable pub reaped_state : State B → ℕ → Plot → ℕ → ℕ → State B
  reaped_state gathered plot_id harvested version now_ms =
      advance_versions
        (record gathered {
          plots = insert plot_id harvested gathered.plots;
          tasks = increment_task 4 gathered.tasks;
        })
        version now_ms

  unfoldable pub harvest_decide : ConfigSnapshot → ℕ → ℕ → List ℕ → State B → Decision B
  unfolding harvest_patch reaped_state
  harvest_decide config now_ms plot_id request_id state = do
    reject_if state (plot_id == 0) (failure_of ErrorCode.invalid_argument)
    plot ← require state (lookup plot_id state.plots) (failure_of ErrorCode.plot_not_found)
    reject_if state (is_growing plot.state) (failure_at ErrorCode.crop_not_mature plot)
    reject_if state (not (is_mature plot.state)) (failure_at ErrorCode.plot_state_conflict plot)
    let quantity = harvested_quantity plot
    let current = read state.inventory plot.crop_item_id
    reject_if state
        (not (quantity == 0) && (current == 0 && leb inventory_type_limit (length state.inventory)))
        (failure_of ErrorCode.inventory_type_limit)
    reject_if state (ltb inventory_stack_limit (current + quantity))
        (failure_of ErrorCode.inventory_stack_limit)
    gathered ← gather state plot quantity
    let harvested = harvested_plot plot
    let changed = reaped_state gathered plot_id harvested config.version now_ms
    ok (
      changed,
      Payload.harvest_response (record {
        crop_item_id = plot.crop_item_id;
        harvested_quantity = quantity;
        patch = harvest_patch changed harvested quantity;
      }),
    )

  unfoldable pub harvest :
      Codec B → State B → ℕ → Request → ℕ → ConfigSnapshot → ℕ → State B × Response × Bool
  harvest codec state caller request plot_id config now_ms =
      run codec PayloadKind.harvest (harvest_decide config now_ms plot_id) state caller request
        (codec.sha256 (harvest_fingerprint caller request plot_id)) config.version now_ms
