-- ===== src/Session/Rejection.antt =====
-- A command of a player that is rejected (Runtime.Handle of server/internal/player/runtime.go).
use supernova_classic_farm.Base.{ℕ, ◌≡◌, none}
use supernova_classic_farm.Wire.{PayloadKind, Request}
use supernova_classic_farm.Config.{ConfigSnapshot}
use supernova_classic_farm.Player.{State}
use supernova_classic_farm.Idempotency.{Codec}
use supernova_classic_farm.Command.BuySeeds.{buy_seeds_fingerprint, buy_seeds_decide, buy_seeds}
use supernova_classic_farm.Command.BuyFertilizer.{
  buy_fertilizer_fingerprint, buy_fertilizer_decide, buy_fertilizer,
}
use supernova_classic_farm.Command.ClaimReward.{
  claim_reward_fingerprint, claim_reward_decide, claim_reward,
}
use supernova_classic_farm.Command.Plant.{plant_fingerprint, plant_decide, plant}
use supernova_classic_farm.Command.ApplyFertilizer.{
  fertilizer_fingerprint, apply_fertilizer_decide, apply_fertilizer,
}
use supernova_classic_farm.Command.Harvest.{harvest_fingerprint, harvest_decide, harvest}
use supernova_classic_farm.Command.CleanPlot.{clean_plot_fingerprint, clean_plot_decide, clean_plot}
use supernova_classic_farm.Command.SellCrop.{sell_crop_fingerprint, sell_crop_decide, sell_crop}
use supernova_classic_farm.Command.Restoring.{
  buy_seeds_decide-Leaves, buy_fertilizer_decide-Leaves, plant_decide-Leaves,
  clean_plot_decide-Leaves, sell_crop_decide-Leaves, harvest_decide-Leaves,
  claim_reward_decide-Leaves, apply_fertilizer_decide-Leaves,
}
use supernova_classic_farm.Session.{PlayerCommand, execute}
use supernova_classic_farm.Idempotency.Rejection.{OnlyBookkeeping, run_rejected}

-- A command whose answer has no payload, because it was rejected, conflicts with another request,
-- has a bad ID or repeats a rejected one, leaves the game as it was, also where the code has
-- changed a plot in place by then: of the state at most the checkpoint's revision, the version of
-- the configuration, the time of the update and the stored results differ.
pub execute_rejected :
    {B : Type 0} (codec : Codec B) (state : State B) (caller : ℕ) (request : Request)
    (command : PlayerCommand) (config : ConfigSnapshot) (now_ms : ℕ)
    → (execute codec state caller request command config now_ms).1.payload ≡ none
    → OnlyBookkeeping state (execute codec state caller request command config now_ms).0
unfolding execute buy_seeds plant apply_fertilizer harvest clean_plot sell_crop buy_fertilizer
    claim_reward
execute_rejected codec state caller request (PlayerCommand.clean_plot_command plot_id) config now_ms
      h =
    run_rejected codec PayloadKind.clean_plot (clean_plot_decide config now_ms plot_id) state caller
      request (codec.sha256 (clean_plot_fingerprint caller request plot_id)) config.version now_ms
      (clean_plot_decide-Leaves config now_ms plot_id) h
execute_rejected codec state caller request (PlayerCommand.buy_seeds_command buy) config now_ms h =
    run_rejected codec PayloadKind.buy_seeds (buy_seeds_decide config now_ms buy) state caller
      request (codec.sha256 (buy_seeds_fingerprint caller request buy)) config.version now_ms
      (buy_seeds_decide-Leaves config now_ms buy) h
execute_rejected codec state caller request (PlayerCommand.plant_command plant_request) config
      now_ms h =
    run_rejected codec PayloadKind.plant (plant_decide config now_ms plant_request) state caller
      request (codec.sha256 (plant_fingerprint caller request plant_request)) config.version now_ms
      (plant_decide-Leaves config now_ms plant_request) h
execute_rejected codec state caller request (PlayerCommand.apply_fertilizer_command apply) config
      now_ms h =
    run_rejected codec PayloadKind.apply_fertilizer
      (apply_fertilizer_decide codec.sha256 caller config now_ms apply) state caller request
      (codec.sha256 (fertilizer_fingerprint caller request apply)) config.version now_ms
      (apply_fertilizer_decide-Leaves codec.sha256 caller config now_ms apply) h
execute_rejected codec state caller request (PlayerCommand.harvest_command plot_id) config now_ms
      h =
    run_rejected codec PayloadKind.harvest (harvest_decide config now_ms plot_id) state caller
      request (codec.sha256 (harvest_fingerprint caller request plot_id)) config.version now_ms
      (harvest_decide-Leaves config now_ms plot_id) h
execute_rejected codec state caller request (PlayerCommand.sell_crop_command sell) config now_ms h =
    run_rejected codec PayloadKind.sell_crop (sell_crop_decide config now_ms sell) state caller
      request (codec.sha256 (sell_crop_fingerprint caller request sell)) config.version now_ms
      (sell_crop_decide-Leaves config now_ms sell) h
execute_rejected codec state caller request (PlayerCommand.buy_fertilizer_command buy) config now_ms
      h =
    run_rejected codec PayloadKind.buy_fertilizer (buy_fertilizer_decide config now_ms buy) state
      caller request (codec.sha256 (buy_fertilizer_fingerprint caller request buy)) config.version
      now_ms (buy_fertilizer_decide-Leaves config now_ms buy) h
execute_rejected codec state caller request (PlayerCommand.claim_reward_command chapter_id) config
      now_ms h =
    run_rejected codec PayloadKind.claim_chapter_reward
      (claim_reward_decide codec.sha256 codec.marshal_reward_mail caller config now_ms chapter_id)
      state caller request (codec.sha256 (claim_reward_fingerprint caller request chapter_id))
      config.version now_ms
      (claim_reward_decide-Leaves codec.sha256 codec.marshal_reward_mail caller config now_ms
        chapter_id)
      h
