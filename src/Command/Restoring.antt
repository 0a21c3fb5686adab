-- ===== src/Command/Restoring.antt =====
-- A command of server/internal/player that is rejected leaves the player's state as it was: what it
-- has changed in place by then, it has put back.
use supernova_classic_farm.Base.{
  ℕ, ◌≡◌, refl, inl, inr, Option, some, List, ◌==◌, ◌||◌, ◌&&◌, not, ◌/◌, ◌*◌, ◌+◌, ◌-◌, ltb, leb,
  length, max_int64, u64, Bool-cases,
}
use supernova_classic_farm.Base.Map.{lookup, read}
use supernova_classic_farm.Plot.{Plot}
use supernova_classic_farm.Growth.{
  is_growing, estimate_mature_at_ms, estimate_plot_mature_at_ms, settle_growing_plot,
}
use supernova_classic_farm.Config.{
  shop_entry, pet_food_config, crop_for_seed, sell_rule, fertilizer, chapter_config, ConfigSnapshot,
  FertilizerConfig,
}
use supernova_classic_farm.Player.{
  basic_fertilizer_id, State, ensure_career, checked_add_uint64, all_tasks_complete,
}
use supernova_classic_farm.Player.Views.{is_mature}
use supernova_classic_farm.Player.Outbox.{RewardMail}
use supernova_classic_farm.Idempotency.Replay.{Leaves}
use supernova_classic_farm.Command.BuySeeds.{is_some, BuySeedsRequest, buy_seeds_decide}
use supernova_classic_farm.Command.BuyFertilizer.{
  fertilizer_entry, BuyFertilizerRequest, buy_fertilizer_decide,
}
use supernova_classic_farm.Command.ClaimReward.{
  is_claimed, is_claimable, current_config, following_chapter, grant_items, reward_outbox,
  claim_reward_decide, grant_reward,
}
use supernova_classic_farm.Command.Plant.{is_empty, PlantRequest, plant_decide}
use supernova_classic_farm.Command.ApplyFertilizer.{
  ApplyFertilizerRequest, fertilized_plot, fertilizer_effect_id, is_active, write_plot,
  apply_effect, apply_fertilizer_decide,
}
use supernova_classic_farm.Command.Harvest.{
  inventory_type_limit, inventory_stack_limit, harvested_quantity, gather, harvest_decide,
}
use supernova_classic_farm.Command.CleanPlot.{needs_cleanup, clean_plot_decide}
use supernova_classic_farm.Command.SellCrop.{
  valid_sell_amount, enabled_rule, sold_quantity, SellCropRequest, sell_crop_decide,
}
use supernova_classic_farm.Command.Kept.{
  kept_ok, kept_check, kept_found, kept_worked_out, kept_settled, kept_done, put_back,
  put_back_twice,
}

module _ {B : Type 0} where
  pub buy_seeds_decide-Leaves :
      (config : ConfigSnapshot) (now_ms : ℕ) (buy : BuySeedsRequest) (request_id : List ℕ)
      (state : State B)
      → Leaves state (buy_seeds_decide config now_ms buy request_id state)
  unfolding buy_seeds_decide
  buy_seeds_decide-Leaves config now_ms buy request_id state =
      kept_check state (buy.quantity == 0 || ltb 50 buy.quantity) _ _ (
        kept_found state (shop_entry config buy.shop_entry_id) _ _ (λ entry _.
          kept_check state (not entry.enabled) _ _ (
            kept_check state (entry.item_id == basic_fertilizer_id) _ _ (
              kept_check state (is_some (pet_food_config config entry.item_id)) _ _ (
                kept_check state (not (buy.expected_price_version == entry.price_version)) _ _ (
                  kept_check state (ltb (max_int64 / entry.unit_price) buy.quantity) _ _ (
                    let total = buy.quantity * entry.unit_price in
                    kept_check state (ltb state.coins total) _ _ (
                      let current = read state.inventory entry.item_id in
                      kept_check state (ltb 300 (current + buy.quantity)) _ _
                        (kept_ok state _)))))))))

  pub buy_fertilizer_decide-Leaves :
      (config : ConfigSnapshot) (now_ms : ℕ) (buy : BuyFertilizerRequest) (request_id : List ℕ)
      (state : State B)
      → Leaves state (buy_fertilizer_decide config now_ms buy request_id state)
  unfolding buy_fertilizer_decide
  buy_fertilizer_decide-Leaves config now_ms buy request_id state =
      kept_check state (buy.quantity == 0 || ltb 50 buy.quantity) _ _ (
        kept_found state (fertilizer_entry (shop_entry config buy.shop_entry_id)) _ _ (λ entry _.
          kept_check state (not entry.enabled) _ _ (
            kept_check state (not (buy.expected_price_version == entry.price_version)) _ _ (
              kept_check state (ltb (max_int64 / entry.unit_price) buy.quantity) _ _ (
                let total = buy.quantity * entry.unit_price in
                kept_check state (ltb state.coins total) _ _ (
                  let current = read state.inventory entry.item_id in
                  kept_check state (ltb 300 (current + buy.quantity)) _ _ (kept_ok state _)))))))

  pub plant_decide-Leaves :
      (config : ConfigSnapshot) (now_ms : ℕ) (plant_request : PlantRequest) (request_id : List ℕ)
      (state : State B)
      → Leaves state (plant_decide config now_ms plant_request request_id state)
  unfolding plant_decide
  plant_decide-Leaves config now_ms plant_request request_id state =
      kept_check state (plant_request.plot_id == 0 || plant_request.seed_item_id == 0) _ _ (
        kept_found state (lookup plant_request.plot_id state.plots) _ _ (λ plot _.
          kept_check state (not (is_empty plot.state)) _ _ (
            kept_found state (crop_for_seed config plant_request.seed_item_id) _ _ (λ crop _.
              kept_check state (not crop.enabled) _ _ (
                let seed_quantity = read state.inventory plant_request.seed_item_id in
                kept_check state (seed_quantity == 0) _ _ (
                  kept_worked_out state state
                    (estimate_mature_at_ms now_ms crop.maturity_value_scaled9
                      crop.base_growth_rate_scaled6)
                    _ _ refl (λ estimate. kept_ok state _)))))))

  pub clean_plot_decide-Leaves :
      (config : ConfigSnapshot) (now_ms plot_id : ℕ) (request_id : List ℕ) (state : State B)
      → Leaves state (clean_plot_decide config now_ms plot_id request_id state)
  unfolding clean_plot_decide
  clean_plot_decide-Leaves config now_ms plot_id request_id state =
      kept_check state (plot_id == 0) _ _ (
        kept_found state (lookup plot_id state.plots) _ _
          (λ plot _. kept_check state (not (needs_cleanup plot.state)) _ _ (kept_ok state _)))

  pub sell_crop_decide-Leaves :
      (config : ConfigSnapshot) (now_ms : ℕ) (sell : SellCropRequest) (request_id : List ℕ)
      (state : State B)
      → Leaves state (sell_crop_decide config now_ms sell request_id state)
  unfolding sell_crop_decide
  sell_crop_decide-Leaves config now_ms sell request_id state =
      kept_check state
        (sell.crop_item_id == 0
          || (sell.expected_price_version == 0 || not (valid_sell_amount sell.amount)))
        _ _
        (kept_found state (enabled_rule (sell_rule config sell.crop_item_id)) _ _ (λ rule _.
          kept_check state (not (sell.expected_price_version == rule.price_version)) _ _ (
            let current = read state.inventory sell.crop_item_id in
            let sold = sold_quantity sell.amount current in
            kept_check state (sold == 0 || ltb current sold) _ _ (
              kept_check state (ltb (max_int64 / rule.unit_price) sold) _ _ (
                let total = sold * rule.unit_price in
                kept_check state (ltb (max_int64 - total) state.coins) _ _ (kept_ok state _))))))

  gather-Leaves :
      (state : State B) (plot : Plot) (quantity : ℕ) → Leaves state (gather state plot quantity)
  unfolding gather
  gather-Leaves state plot quantity = elim (Bool-cases (quantity == 0)) [
    | inl e ↦ rw e (kept_ok state _)
    | inr e ↦ rw e (
        kept_found state
          (checked_add_uint64 (ensure_career state.career).total_harvested_crop_quantity quantity) _
          _ (λ _ _. kept_ok state _))
  ]

  pub harvest_decide-Leaves :
      (config : ConfigSnapshot) (now_ms plot_id : ℕ) (request_id : List ℕ) (state : State B)
      → Leaves state (harvest_decide config now_ms plot_id request_id state)
  unfolding harvest_decide
  harvest_decide-Leaves config now_ms plot_id request_id state =
      kept_check state (plot_id == 0) _ _ (
        kept_found state (lookup plot_id state.plots) _ _ (λ plot _.
          kept_check state (is_growing plot.state) _ _ (
            kept_check state (not (is_mature plot.state)) _ _ (
              let quantity = harvested_quantity plot in
              let current = read state.inventory plot.crop_item_id in
              kept_check state
                (not (quantity == 0)
                  && (current == 0 && leb inventory_type_limit (length state.inventory)))
                _ _
                (kept_check state (ltb inventory_stack_limit (current + quantity)) _ _ (
                  kept_done state (gather state plot quantity) _ (gather-Leaves state plot quantity)
                    (λ gathered. kept_ok state _)))))))

  pub claim_reward_decide-Leaves :
      (sha256 : List ℕ → List ℕ) (marshal : RewardMail → Option (List ℕ)) (caller : ℕ)
      (config : ConfigSnapshot) (now_ms chapter_id : ℕ) (request_id : List ℕ) (state : State B)
      → Leaves state
          (claim_reward_decide sha256 marshal caller config now_ms chapter_id request_id state)
  unfolding claim_reward_decide grant_reward
  claim_reward_decide-Leaves sha256 marshal caller config now_ms chapter_id request_id state =
      kept_check state (chapter_id == 0) _ _ (
        kept_check state (not (chapter_id == state.chapter_id)) _ _ (
          kept_check state (is_claimed state.chapter) _ _ (
            kept_check state
              (not (is_claimable state.chapter) || not (all_tasks_complete state.tasks)) _ _
              (kept_found state
                (current_config (chapter_config config state.chapter_id)
                  state.chapter_config_version)
                _ _
                (λ chapter _. kept_found state (following_chapter config chapter) _ _ (λ next _.
                  kept_check state (ltb max_int64 (state.coins + chapter.reward_coins)) _ _ (
                    let granted = grant_items chapter.reward_items state.inventory in
                    kept_found state
                      (reward_outbox sha256 marshal caller request_id chapter granted.items_pending
                        state.owner_epoch (u64 (state.player_seq + 1)) now_ms)
                      _ _ (λ mails _. kept_ok state _))))))))

  -- The plot is put back after it was settled, or after it was put under the effect.
  apply_effect-Leaves :
      (sha256 : List ℕ → List ℕ) (caller : ℕ) (config : ConfigSnapshot) (now_ms : ℕ)
      (request : ApplyFertilizerRequest) (request_id : List ℕ) (state : State B) (plot : Plot)
      (used : FertilizerConfig)
      → lookup request.plot_id state.plots ≡ some plot
      → Leaves state (apply_effect sha256 caller config now_ms request request_id state plot used)
  unfolding apply_effect write_plot
  apply_effect-Leaves sha256 caller config now_ms request request_id state plot used found =
      kept_settled state _ (settle_growing_plot plot now_ms) _ _
        (put_back state request.plot_id plot found (settle_growing_plot plot now_ms).0)
        (λ settled.
          let fertilized =
            fertilized_plot settled used request.fertilizer_item_id
              (fertilizer_effect_id sha256 caller request_id) now_ms in
          kept_worked_out state _ (estimate_plot_mature_at_ms fertilized now_ms) _ _
            (put_back_twice state request.plot_id plot found (settle_growing_plot plot now_ms).0
              fertilized)
            (λ estimate. kept_ok state _))

  pub apply_fertilizer_decide-Leaves :
      (sha256 : List ℕ → List ℕ) (caller : ℕ) (config : ConfigSnapshot) (now_ms : ℕ)
      (apply : ApplyFertilizerRequest) (request_id : List ℕ) (state : State B)
      → Leaves state (apply_fertilizer_decide sha256 caller config now_ms apply request_id state)
  unfolding apply_fertilizer_decide
  apply_fertilizer_decide-Leaves sha256 caller config now_ms apply request_id state =
      kept_check state (apply.plot_id == 0 || apply.fertilizer_item_id == 0) _ _ (
        kept_found state (lookup apply.plot_id state.plots) _ _ (λ plot in_map.
          kept_check state (not (is_growing plot.state)) _ _ (
            kept_check state (is_active plot.fertilizer_effect now_ms) _ _ (
              kept_found state (fertilizer config apply.fertilizer_item_id) _ _
                (λ fertilizer_config _. kept_check state (not fertilizer_config.enabled) _ _ (
                  let item_quantity = read state.inventory apply.fertilizer_item_id in
                  kept_check state (item_quantity == 0) _ _ (
                    kept_check state (ltb (max_int64 - fertilizer_config.duration_ms) now_ms) _ _ (
                      apply_effect-Leaves sha256 caller config now_ms apply request_id state plot
                        fertilizer_config in_map))))))))
