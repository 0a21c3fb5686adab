-- ===== src/Session/RewardTests.antt =====
-- Examples for a chapter's reward and the purchase of fertilizer: a stack of 299 seeds takes one of
-- the five that a reward gives, and the others are mailed.
use supernova_classic_farm.Base.{ℕ, ◌≡◌, refl, true, some, Option, List, [], ◌∷◌, arith, ok, err}
use supernova_classic_farm.Base.Map.{lookup, insert, read}
use supernova_classic_farm.Wire.{ChapterStatus, empty_patch, Payload}
use supernova_classic_farm.Config.{ConfigSnapshot, chapter_config, shop_entry}
use supernova_classic_farm.Player.{State, all_tasks_complete, advance_versions}
use supernova_classic_farm.Player.Outbox.{RewardMail}
use supernova_classic_farm.Command.BuyFertilizer.{BuyFertilizerRequest, buy_fertilizer_decide}
use supernova_classic_farm.Command.ClaimReward.{
  claim_reward_decide, current_config, following_chapter,
}
use supernova_classic_farm.Command.Granting.{IsBounded}
use supernova_classic_farm.Command.Rewards.{Claimed, claim_reward-Claimed}
use supernova_classic_farm.Command.Trade.{BoughtFertilizer, buy_fertilizer-BoughtFertilizer}
use supernova_classic_farm.Idempotency.{Decision}
use supernova_classic_farm.Session.Tests.{Message, farm, config}

abbrev reward_config : ConfigSnapshot
reward_config = record config {
  chapters =
      (
        1,
        record {
          chapter_id = 1;
          config_version = 2;
          tasks = [];
          reward_coins = 10;
          reward_items = record { item_id = 101; quantity = 5 } ∷ [];
          next_chapter_id = 0;
        },
      )
      ∷ [];
  shop_entries =
      (
        8,
        record {
          shop_entry_id = 8;
          item_id = 1;
          unit_price = 3;
          price_version = 1;
          enabled = true;
        },
      )
      ∷ [];
}

abbrev finished : State Message
finished = record farm {
  chapter = ChapterStatus.claimable;
  tasks = record { id = 1; current = 1; target = 1 } ∷ [];
  inventory = (101, 299) ∷ [];
}

abbrev outcome : Decision Message → State Message × Payload
outcome (ok result) = result
outcome (err failure) = (farm, Payload.clean_plot_response empty_patch)

abbrev marshal : RewardMail → Option (List ℕ)
marshal mail = some (mail.recipient_player_id ∷ mail.request_id)

abbrev claimed : State Message × Payload
claimed = outcome (claim_reward_decide (λ bytes. bytes) marshal 9 reward_config 20 1 [] finished)

claim-accepted :
    claim_reward_decide (λ bytes. bytes) marshal 9 reward_config 20 1 [] finished
    ≡ ok (claimed.0, claimed.1)
unfolding claim_reward_decide all_tasks_complete current_config chapter_config lookup
    following_chapter read
claim-accepted = refl

finished-IsBounded : IsBounded finished.inventory
unfolding read lookup
finished-IsBounded item_id = ground arith

claim_reward-Claimed_example : Claimed marshal 9 [] reward_config 1 finished claimed.0 claimed.1
claim_reward-Claimed_example =
    claim_reward-Claimed (λ bytes. bytes) marshal 9 reward_config 20 1 [] finished
      finished-IsBounded claim-accepted

one_is_added : read (claimed.0).inventory 101 ≡ 300
unfolding claim_reward_decide read all_tasks_complete current_config chapter_config
    following_chapter advance_versions insert
one_is_added = refl

abbrev buy : BuyFertilizerRequest
buy = record { shop_entry_id = 8; quantity = 2; expected_price_version = 1 }

abbrev bought : State Message × Payload
bought = outcome (buy_fertilizer_decide reward_config 20 buy [] farm)

buy-accepted : buy_fertilizer_decide reward_config 20 buy [] farm ≡ ok (bought.0, bought.1)
unfolding buy_fertilizer_decide shop_entry lookup read
buy-accepted = refl

buy_fertilizer-BoughtFertilizer_example : BoughtFertilizer reward_config buy farm bought.0 bought.1
buy_fertilizer-BoughtFertilizer_example =
    buy_fertilizer-BoughtFertilizer reward_config 20 buy [] farm buy-accepted
