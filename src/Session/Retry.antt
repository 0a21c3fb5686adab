-- ===== src/Session/Retry.antt =====
-- A command of a player that is sent again (Runtime.Handle of server/internal/player/runtime.go,
-- and the idempotency results of each command).
use supernova_classic_farm.Base.{ℕ, ◌≡◌, false, Option, List}
use supernova_classic_farm.Wire.{PayloadKind, Request}
use supernova_classic_farm.Config.{ConfigSnapshot}
use supernova_classic_farm.Player.{State}
use supernova_classic_farm.Player.Outbox.{RewardMail}
use supernova_classic_farm.Idempotency.{Codec, CodecLaws}
use supernova_classic_farm.Idempotency.Replay.{IsCommand, SameAnswer}
use supernova_classic_farm.Idempotency.Retry.{run_retry}
use supernova_classic_farm.Command.BuySeeds.{
  BuySeedsRequest, buy_seeds_fingerprint, buy_seeds_decide, buy_seeds,
}
use supernova_classic_farm.Command.BuyFertilizer.{
  BuyFertilizerRequest, buy_fertilizer_fingerprint, buy_fertilizer_decide, buy_fertilizer,
}
use supernova_classic_farm.Command.ClaimReward.{
  claim_reward_fingerprint, claim_reward_decide, claim_reward,
}
use supernova_classic_farm.Command.Rewards.{claim_reward-answer}
use supernova_classic_farm.Command.Plant.{PlantRequest, plant_fingerprint, plant_decide, plant}
use supernova_classic_farm.Command.ApplyFertilizer.{
  ApplyFertilizerRequest, fertilizer_fingerprint, apply_fertilizer_decide, apply_fertilizer,
}
use supernova_classic_farm.Command.Harvest.{harvest_fingerprint, harvest_decide, harvest}
use supernova_classic_farm.Command.CleanPlot.{clean_plot_fingerprint, clean_plot_decide, clean_plot}
use supernova_classic_farm.Command.SellCrop.{
  SellCropRequest, sell_crop_fingerprint, sell_crop_decide, sell_crop,
}
use supernova_classic_farm.Command.Trade.{
  buy_seeds-Bought, buy_fertilizer-BoughtFertilizer, sell_crop-Sold,
}
use supernova_classic_farm.Command.Farming.{plant-Planted, harvest-Harvested, clean_plot-Cleaned}
use supernova_classic_farm.Command.Fertilizing.{apply_fertilizer-Fertilized}
use supernova_classic_farm.Command.Restoring.{
  buy_seeds_decide-Leaves, buy_fertilizer_decide-Leaves, plant_decide-Leaves,
  clean_plot_decide-Leaves, sell_crop_decide-Leaves, harvest_decide-Leaves,
  claim_reward_decide-Leaves, apply_fertilizer_decide-Leaves,
}
use supernova_classic_farm.Session.{PlayerCommand, execute}

module _ {B : Type 0} where
  pub buy_seeds-IsCommand :
      (config : ConfigSnapshot) (now_ms : ℕ) (buy : BuySeedsRequest)
      → IsCommand {B = B} PayloadKind.buy_seeds (buy_seeds_decide config now_ms buy)
  buy_seeds-IsCommand config now_ms buy = record {
    restores = buy_seeds_decide-Leaves config now_ms buy;
    keeps_results = λ id s h. (buy_seeds-Bought config now_ms buy id s h).results;
    answers = λ id s h. (buy_seeds-Bought config now_ms buy id s h).answer;
  }

  pub plant-IsCommand :
      (config : ConfigSnapshot) (now_ms : ℕ) (request : PlantRequest)
      → IsCommand {B = B} PayloadKind.plant (plant_decide config now_ms request)
  plant-IsCommand config now_ms request = record {
    restores = plant_decide-Leaves config now_ms request;
    keeps_results = λ id s h. (plant-Planted config now_ms request id s h).results;
    answers = λ id s h. (plant-Planted config now_ms request id s h).answer;
  }

  pub apply_fertilizer-IsCommand :
      (sha256 : List ℕ → List ℕ) (caller : ℕ) (config : ConfigSnapshot) (now_ms : ℕ)
      (request : ApplyFertilizerRequest)
      → IsCommand {B = B} PayloadKind.apply_fertilizer
          (apply_fertilizer_decide sha256 caller config now_ms request)
  apply_fertilizer-IsCommand sha256 caller config now_ms request = record {
    restores = apply_fertilizer_decide-Leaves sha256 caller config now_ms request;
    keeps_results =
        λ id s h. (apply_fertilizer-Fertilized sha256 caller config now_ms request id s h).results;
    answers =
        λ id s h. (apply_fertilizer-Fertilized sha256 caller config now_ms request id s h).answer;
  }

  pub harvest-IsCommand :
      (config : ConfigSnapshot) (now_ms plot_id : ℕ)
      → IsCommand {B = B} PayloadKind.harvest (harvest_decide config now_ms plot_id)
  harvest-IsCommand config now_ms plot_id = record {
    restores = harvest_decide-Leaves config now_ms plot_id;
    keeps_results = λ id s h. (harvest-Harvested config now_ms plot_id id s h).results;
    answers = λ id s h. (harvest-Harvested config now_ms plot_id id s h).answer;
  }

  pub clean_plot-IsCommand :
      (config : ConfigSnapshot) (now_ms plot_id : ℕ)
      → IsCommand {B = B} PayloadKind.clean_plot (clean_plot_decide config now_ms plot_id)
  clean_plot-IsCommand config now_ms plot_id = record {
    restores = clean_plot_decide-Leaves config now_ms plot_id;
    keeps_results = λ id s h. (clean_plot-Cleaned config now_ms plot_id id s h).results;
    answers = λ id s h. (clean_plot-Cleaned config now_ms plot_id id s h).answer;
  }

  pub buy_fertilizer-IsCommand :
      (config : ConfigSnapshot) (now_ms : ℕ) (buy : BuyFertilizerRequest)
      → IsCommand {B = B} PayloadKind.buy_fertilizer (buy_fertilizer_decide config now_ms buy)
  buy_fertilizer-IsCommand config now_ms buy = record {
    restores = buy_fertilizer_decide-Leaves config now_ms buy;
    keeps_results = λ id s h. (buy_fertilizer-BoughtFertilizer config now_ms buy id s h).results;
    answers = λ id s h. (buy_fertilizer-BoughtFertilizer config now_ms buy id s h).answer;
  }

  pub claim_reward-IsCommand :
      (sha256 : List ℕ → List ℕ) (marshal : RewardMail → Option (List ℕ)) (caller : ℕ)
      (config : ConfigSnapshot) (now_ms chapter_id : ℕ)
      → IsCommand {B = B} PayloadKind.claim_chapter_reward
          (claim_reward_decide sha256 marshal caller config now_ms chapter_id)
  claim_reward-IsCommand sha256 marshal caller config now_ms chapter_id = record {
    restores = claim_reward_decide-Leaves sha256 marshal caller config now_ms chapter_id;
    keeps_results =
        λ id s h. (claim_reward-answer sha256 marshal caller config now_ms chapter_id id s h).0;
    answers =
        λ id s h. (claim_reward-answer sha256 marshal caller config now_ms chapter_id id s h).1;
  }

  pub sell_crop-IsCommand :
      (config : ConfigSnapshot) (now_ms : ℕ) (sell : SellCropRequest)
      → IsCommand {B = B} PayloadKind.sell_crop (sell_crop_decide config now_ms sell)
  sell_crop-IsCommand config now_ms sell = record {
    restores = sell_crop_decide-Leaves config now_ms sell;
    keeps_results = λ id s h. (sell_crop-Sold config now_ms sell id s h).results;
    answers = λ id s h. (sell_crop-Sold config now_ms sell id s h).answer;
  }

-- A command that a player sends twice with the same request, with nothing in between, is carried
-- out once: the second run leaves the state that the first left, reports no change, and answers
-- with the first one's error or payload and its state version, whether the first was accepted or
-- rejected in whatever way. This holds at any two times, also more than 24 hours apart, and under
-- any two configurations, also for an error that is marked retryable, as CONFIG_UNAVAILABLE is.
pub execute_retry :
    {B : Type 0} (codec : Codec B) (laws : CodecLaws codec) (state : State B) (caller : ℕ)
    (request : Request) (command : PlayerCommand) (config1 config2 : ConfigSnapshot) (now1 now2 : ℕ)
    → request.target_player_id ≡ caller
    → (let (after, response, dirty) = execute codec state caller request command config1 now1 in
        let (after2, response2, dirty2) = execute codec after caller request command config2 now2 in
        (after2 ≡ after) × (dirty2 ≡ false) × SameAnswer response response2)
unfolding execute buy_seeds plant apply_fertilizer harvest clean_plot sell_crop buy_fertilizer
    claim_reward
execute_retry codec laws state caller request (PlayerCommand.clean_plot_command plot_id) config1
      config2 now1 now2 own =
    run_retry codec laws PayloadKind.clean_plot (clean_plot_decide config1 now1 plot_id)
      (clean_plot_decide config2 now2 plot_id) (clean_plot-IsCommand config1 now1 plot_id) state
      caller request (codec.sha256 (clean_plot_fingerprint caller request plot_id)) config1.version
      now1 config2.version now2 own
execute_retry codec laws state caller request (PlayerCommand.buy_seeds_command buy) config1 config2
      now1 now2 own =
    run_retry codec laws PayloadKind.buy_seeds (buy_seeds_decide config1 now1 buy)
      (buy_seeds_decide config2 now2 buy) (buy_seeds-IsCommand config1 now1 buy) state caller
      request (codec.sha256 (buy_seeds_fingerprint caller request buy)) config1.version now1
      config2.version now2 own
execute_retry codec laws state caller request (PlayerCommand.plant_command plant_request) config1
      config2 now1 now2 own =
    run_retry codec laws PayloadKind.plant (plant_decide config1 now1 plant_request)
      (plant_decide config2 now2 plant_request) (plant-IsCommand config1 now1 plant_request) state
      caller request (codec.sha256 (plant_fingerprint caller request plant_request)) config1.version
      now1 config2.version now2 own
execute_retry codec laws state caller request (PlayerCommand.apply_fertilizer_command apply) config1
      config2 now1 now2 own =
    run_retry codec laws PayloadKind.apply_fertilizer
      (apply_fertilizer_decide codec.sha256 caller config1 now1 apply)
      (apply_fertilizer_decide codec.sha256 caller config2 now2 apply)
      (apply_fertilizer-IsCommand codec.sha256 caller config1 now1 apply) state caller request
      (codec.sha256 (fertilizer_fingerprint caller request apply)) config1.version now1
      config2.version now2 own
execute_retry codec laws state caller request (PlayerCommand.harvest_command plot_id) config1
      config2 now1 now2 own =
    run_retry codec laws PayloadKind.harvest (harvest_decide config1 now1 plot_id)
      (harvest_decide config2 now2 plot_id) (harvest-IsCommand config1 now1 plot_id) state caller
      request (codec.sha256 (harvest_fingerprint caller request plot_id)) config1.version now1
      config2.version now2 own
execute_retry codec laws state caller request (PlayerCommand.sell_crop_command sell) config1 config2
      now1 now2 own =
    run_retry codec laws PayloadKind.sell_crop (sell_crop_decide config1 now1 sell)
      (sell_crop_decide config2 now2 sell) (sell_crop-IsCommand config1 now1 sell) state caller
      request (codec.sha256 (sell_crop_fingerprint caller request sell)) config1.version now1
      config2.version now2 own
execute_retry codec laws state caller request (PlayerCommand.buy_fertilizer_command buy) config1
      config2 now1 now2 own =
    run_retry codec laws PayloadKind.buy_fertilizer (buy_fertilizer_decide config1 now1 buy)
      (buy_fertilizer_decide config2 now2 buy) (buy_fertilizer-IsCommand config1 now1 buy) state
      caller request (codec.sha256 (buy_fertilizer_fingerprint caller request buy)) config1.version
      now1 config2.version now2 own
execute_retry codec laws state caller request (PlayerCommand.claim_reward_command chapter_id)
      config1 config2 now1 now2 own =
    run_retry codec laws PayloadKind.claim_chapter_reward
      (claim_reward_decide codec.sha256 codec.marshal_reward_mail caller config1 now1 chapter_id)
      (claim_reward_decide codec.sha256 codec.marshal_reward_mail caller config2 now2 chapter_id)
      (claim_reward-IsCommand codec.sha256 codec.marshal_reward_mail caller config1 now1 chapter_id)
      state caller request (codec.sha256 (claim_reward_fingerprint caller request chapter_id))
      config1.version now1 config2.version now2 own
