-- ===== src/Session.antt =====
-- The commands of a player on its own farm as one step of its actor: the dispatch of
-- Runtime.Handle (server/internal/player/runtime.go) inside the mailbox.
pub mod Retry
pub mod Rejection
pub mod Invariant
mod Tests
mod RewardTests
use supernova_classic_farm.Base.{ℕ, Bool, List, Result}
use supernova_classic_farm.Wire.{Failure, Payload, PayloadKind, Request, Response}
use supernova_classic_farm.Config.{ConfigSnapshot}
use supernova_classic_farm.Player.{State}
use supernova_classic_farm.Idempotency.{Codec}
use supernova_classic_farm.Command.BuySeeds.{BuySeedsRequest, buy_seeds_decide, buy_seeds}
use supernova_classic_farm.Command.BuyFertilizer.{
  BuyFertilizerRequest, buy_fertilizer_decide, buy_fertilizer,
}
use supernova_classic_farm.Command.ClaimReward.{claim_reward_decide, claim_reward}
use supernova_classic_farm.Command.Plant.{PlantRequest, plant_decide, plant}
use supernova_classic_farm.Command.ApplyFertilizer.{
  ApplyFertilizerRequest, apply_fertilizer_decide, apply_fertilizer,
}
use supernova_classic_farm.Command.Harvest.{harvest_decide, harvest}
use supernova_classic_farm.Command.CleanPlot.{clean_plot_decide, clean_plot}
use supernova_classic_farm.Command.SellCrop.{SellCropRequest, sell_crop_decide, sell_crop}

-- The action of an envelope with the payload that fits it. A harvest and a cleaning carry the ID
-- of a plot, a claim that of a chapter.
pub data PlayerCommand : Type 0 where
  buy_seeds_command : BuySeedsRequest → PlayerCommand
  plant_command : PlantRequest → PlayerCommand
  apply_fertilizer_command : ApplyFertilizerRequest → PlayerCommand
  harvest_command clean_plot_command : ℕ → PlayerCommand
  sell_crop_command : SellCropRequest → PlayerCommand
  buy_fertilizer_command : BuyFertilizerRequest → PlayerCommand
  claim_reward_command : ℕ → PlayerCommand

-- The branches `if isBuySeeds`, `if isPlant` and so on.
unfoldable pub execute :
    {B : Type 0}
    → Codec B
    → State B
    → ℕ
    → Request
    → PlayerCommand
    → ConfigSnapshot
    → ℕ
    → State B × Response × Bool
execute codec state caller request (PlayerCommand.buy_seeds_command buy) config now_ms =
    buy_seeds codec state caller request buy config now_ms
execute codec state caller request (PlayerCommand.plant_command plant_request) config now_ms =
    plant codec state caller request plant_request config now_ms
execute codec state caller request (PlayerCommand.apply_fertilizer_command apply) config now_ms =
    apply_fertilizer codec state caller request apply config now_ms
execute codec state caller request (PlayerCommand.harvest_command plot_id) config now_ms =
    harvest codec state caller request plot_id config now_ms
execute codec state caller request (PlayerCommand.clean_plot_command plot_id) config now_ms =
    clean_plot codec state caller request plot_id config now_ms
execute codec state caller request (PlayerCommand.sell_crop_command sell) config now_ms =
    sell_crop codec state caller request sell config now_ms
execute codec state caller request (PlayerCommand.buy_fertilizer_command buy) config now_ms =
    buy_fertilizer codec state caller request buy config now_ms
execute codec state caller request (PlayerCommand.claim_reward_command chapter_id) config now_ms =
    claim_reward codec state caller request chapter_id config now_ms
