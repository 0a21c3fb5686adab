-- ===== src/Session/Invariant.antt =====
-- What the commands of server/internal/player keep true of a player's state: the coins fit an
-- int64, no stack is over its limit, and the stored results are bounded.
use supernova_classic_farm.Base.{
  ℕ, ◌+◌, ◌≤◌, ◌≡◌, inl, inr, false, List, ◌==◌, if◌then◌else◌, ok, arith, max_int64, length,
  length-drop, Bool-cases, Option-cases, Result-cases,
}
use supernova_classic_farm.Base.Map.{Map, read}
use supernova_classic_farm.Wire.{Payload, PayloadKind, Request}
use supernova_classic_farm.Config.{ConfigSnapshot}
use supernova_classic_farm.Player.{IdempotencyResult, State}
use supernova_classic_farm.Idempotency.{
  Codec, Decision, parse_request_id, append_result, recall, store_failure, store_success, finish,
  run,
}
use supernova_classic_farm.Idempotency.Replay.{
  Leaves, run_invalid, run_fresh, run_conflict, run_replay,
}
use supernova_classic_farm.Idempotency.Retry.{Recall-cases}
use supernova_classic_farm.Command.Harvest.{inventory_stack_limit}
use supernova_classic_farm.Command.BuySeeds.{buy_seeds_fingerprint, buy_seeds_decide, buy_seeds}
use supernova_classic_farm.Command.BuyFertilizer.{
  buy_fertilizer_fingerprint, buy_fertilizer_decide, buy_fertilizer,
}
use supernova_classic_farm.Command.ClaimReward.{
  claim_reward_fingerprint, claim_reward_decide, claim_reward,
}
use supernova_classic_farm.Command.Rewards.{claim_reward-Claimed}
use supernova_classic_farm.Command.Plant.{plant_fingerprint, plant_decide, plant}
use supernova_classic_farm.Command.ApplyFertilizer.{
  fertilizer_fingerprint, apply_fertilizer_decide, apply_fertilizer,
}
use supernova_classic_farm.Command.Harvest.{harvest_fingerprint, harvest_decide, harvest}
use supernova_classic_farm.Command.CleanPlot.{clean_plot_fingerprint, clean_plot_decide, clean_plot}
use supernova_classic_farm.Command.SellCrop.{sell_crop_fingerprint, sell_crop_decide, sell_crop}
use supernova_classic_farm.Command.Trade.{
  buy_seeds-Bought, buy_fertilizer-BoughtFertilizer, sell_crop-Sold,
}
use supernova_classic_farm.Command.Farming.{plant-Planted, harvest-Harvested, clean_plot-Cleaned}
use supernova_classic_farm.Command.Fertilizing.{apply_fertilizer-Fertilized}
use supernova_classic_farm.Command.Restoring.{
  buy_seeds_decide-Leaves, buy_fertilizer_decide-Leaves, plant_decide-Leaves,
  clean_plot_decide-Leaves, sell_crop_decide-Leaves, harvest_decide-Leaves,
  claim_reward_decide-Leaves, apply_fertilizer_decide-Leaves,
}
use supernova_classic_farm.Session.{PlayerCommand, execute}

pub record IsSound {B : Type 0} (state : State B) : Type 0 where
  pub coins : state.coins ≤ max_int64
  pub stacks : (item_id : ℕ) → read state.inventory item_id ≤ inventory_stack_limit
  pub results : length state.recent_results ≤ 100

-- The part of a sound state that a decision can change.
record IsBalanced {B : Type 0} (state : State B) : Type 0 where
  coins : state.coins ≤ max_int64
  stacks : (item_id : ℕ) → read state.inventory item_id ≤ inventory_stack_limit

append_result-length :
    {B : Type 0} (results : List (IdempotencyResult B)) (result : IdempotencyResult B) (now_ms : ℕ)
    → length (append_result results result now_ms) ≤ 100
unfolding append_result
append_result-length results result now_ms = rw (length-drop) (omega arith)

module _ {B : Type 0} (codec : Codec B) (kind : PayloadKind)
    (decide : List ℕ → State B → Decision B)
    (balanced : (request_id : List ℕ) (s changed : State B) (payload : Payload)
      → IsSound s
      → decide request_id s ≡ ok (changed, payload)
      → IsBalanced changed)
    (restores : (request_id : List ℕ) (s : State B) → Leaves s (decide request_id s))
    (state : State B) (caller : ℕ) (request : Request) (fingerprint : List ℕ) (version now_ms : ℕ)
    (sound : IsSound state) where
  finish-IsSound :
      (request_id : List ℕ)
      → IsSound
          (finish codec kind state caller request request_id fingerprint version now_ms
            (decide request_id state)).0
  unfolding finish
  finish-IsSound request_id = elim (Result-cases (decide request_id state)) [
    | inl ((changed, payload), d) ↦
        rw (d, finish)
          (unfold store_success in
            record {
              coins = (balanced request_id state changed payload sound d).coins;
              stacks = (balanced request_id state changed payload sound d).stacks;
              results = append_result-length _ _ now_ms;
            })
    | inr ((left, failure), d) ↦
        (let same : left ≡ state = (restores request_id state).left_alone left failure d in
          rw (d, finish, same)
            (unfold store_failure in
              record {
                coins = sound.coins;
                stacks = sound.stacks;
                results = append_result-length _ _ now_ms;
              }))
  ]

  run-IsSound : IsSound (run codec kind decide state caller request fingerprint version now_ms).0
  run-IsSound = elim (Option-cases (parse_request_id request.request_id)) [
    | inl p ↦
        rw (run_invalid codec kind decide state caller request fingerprint version now_ms p) sound
    | inr (request_id, p) ↦
        elim (Recall-cases (recall caller request request_id fingerprint state.recent_results)) [
          | inl r ↦
              rw (run_fresh codec kind decide state caller request fingerprint version now_ms p r)
                (finish-IsSound request_id)
          | inr (inl r) ↦
              rw
                (run_conflict codec kind decide state caller request fingerprint version now_ms p r)
                sound
          | inr (inr (stored, r)) ↦
              rw (run_replay codec kind decide state caller request fingerprint version now_ms p r)
                sound
        ]
  ]

stacks_added :
    (before after : Map ℕ) (item_id quantity : ℕ)
    → ((other : ℕ)
        → read after other
          ≡ (if item_id == other then read before other + quantity else read before other))
    → read after item_id ≤ inventory_stack_limit
    → ((other : ℕ) → read before other ≤ inventory_stack_limit)
    → (other : ℕ) → read after other ≤ inventory_stack_limit
stacks_added before after item_id quantity added top bound other =
    elim (Bool-cases (item_id == other)) [
      | inl e ↦ (let same : item_id ≡ other = ground arith in rw (← same) top)
      | inr e ↦ (let h = added other in let b = bound other in let h' = (rw e at h) in omega arith)
    ]

stacks_taken :
    (before after : Map ℕ) (taken : ℕ → ℕ)
    → ((other : ℕ) → read before other ≡ taken other + read after other)
    → ((other : ℕ) → read before other ≤ inventory_stack_limit)
    → (other : ℕ) → read after other ≤ inventory_stack_limit
stacks_taken before after taken h bound other =
    let e = h other in let b = bound other in omega arith

stacks_sold :
    (before after : Map ℕ) (item_id sold : ℕ)
    → read after item_id + sold ≡ read before item_id
    → ((other : ℕ) → (item_id == other) ≡ false → read after other ≡ read before other)
    → ((other : ℕ) → read before other ≤ inventory_stack_limit)
    → (other : ℕ) → read after other ≤ inventory_stack_limit
stacks_sold before after item_id sold taken others bound other =
    elim (Bool-cases (item_id == other)) [
      | inl e ↦
          (let same : item_id ≡ other = ground arith in
            let b = bound item_id in rw (← same) (omega arith))
      | inr e ↦ (let h = others other e in let b = bound other in omega arith)
    ]

-- Every command, whether it is accepted, rejected or replayed and whatever its request is, leaves
-- a sound state sound: the coins fit an int64, no stack holds more than 300 and at most 100
-- results are stored.
pub execute-IsSound :
    {B : Type 0} (codec : Codec B) (state : State B) (caller : ℕ) (request : Request)
    (command : PlayerCommand) (config : ConfigSnapshot) (now_ms : ℕ)
    → IsSound state
    → IsSound (execute codec state caller request command config now_ms).0
unfolding execute buy_seeds plant apply_fertilizer harvest clean_plot sell_crop buy_fertilizer
    claim_reward
execute-IsSound codec state caller request (PlayerCommand.buy_seeds_command buy) config now_ms
      sound =
    run-IsSound codec PayloadKind.buy_seeds (buy_seeds_decide config now_ms buy)
      (λ id s changed payload fine h.
        let b = buy_seeds-Bought config now_ms buy id s h in
        let paid = b.paid in
        let c = fine.coins in
        record {
          coins = omega arith;
          stacks =
              stacks_added s.inventory changed.inventory b.entry.item_id buy.quantity b.stocked
                b.stack fine.stacks;
        })
      (buy_seeds_decide-Leaves config now_ms buy) state caller request
      (codec.sha256 (buy_seeds_fingerprint caller request buy)) config.version now_ms sound
execute-IsSound codec state caller request (PlayerCommand.plant_command request2) config now_ms
      sound =
    run-IsSound codec PayloadKind.plant (plant_decide config now_ms request2)
      (λ id s changed payload fine h.
        let p = plant-Planted config now_ms request2 id s h in
        let same = p.coins in
        let c = fine.coins in
        record {
          coins = omega arith;
          stacks =
              stacks_taken s.inventory changed.inventory
                (λ item_id. if request2.seed_item_id == item_id then 1 else 0) p.seeds fine.stacks;
        })
      (plant_decide-Leaves config now_ms request2) state caller request
      (codec.sha256 (plant_fingerprint caller request request2)) config.version now_ms sound
execute-IsSound codec state caller request (PlayerCommand.apply_fertilizer_command apply) config
      now_ms sound =
    run-IsSound codec PayloadKind.apply_fertilizer
      (apply_fertilizer_decide codec.sha256 caller config now_ms apply)
      (λ id s changed payload fine h.
        let f = apply_fertilizer-Fertilized codec.sha256 caller config now_ms apply id s h in
        let same = f.coins in
        let c = fine.coins in
        record {
          coins = omega arith;
          stacks =
              stacks_taken s.inventory changed.inventory
                (λ item_id. if apply.fertilizer_item_id == item_id then 1 else 0) f.items
                fine.stacks;
        })
      (apply_fertilizer_decide-Leaves codec.sha256 caller config now_ms apply) state caller request
      (codec.sha256 (fertilizer_fingerprint caller request apply)) config.version now_ms sound
execute-IsSound codec state caller request (PlayerCommand.harvest_command plot_id) config now_ms
      sound =
    run-IsSound codec PayloadKind.harvest (harvest_decide config now_ms plot_id)
      (λ id s changed payload fine h.
        let v = harvest-Harvested config now_ms plot_id id s h in
        let same = v.coins in
        let c = fine.coins in
        record {
          coins = omega arith;
          stacks =
              stacks_added s.inventory changed.inventory v.before.crop_item_id v.quantity v.stocked
                v.stack fine.stacks;
        })
      (harvest_decide-Leaves config now_ms plot_id) state caller request
      (codec.sha256 (harvest_fingerprint caller request plot_id)) config.version now_ms sound
execute-IsSound codec state caller request (PlayerCommand.clean_plot_command plot_id) config now_ms
      sound =
    run-IsSound codec PayloadKind.clean_plot (clean_plot_decide config now_ms plot_id)
      (λ id s changed payload fine h.
        let v = clean_plot-Cleaned config now_ms plot_id id s h in
        let same = v.coins in
        let c = fine.coins in
        record { coins = omega arith; stacks = λ item_id. rw (v.inventory) (fine.stacks item_id) })
      (clean_plot_decide-Leaves config now_ms plot_id) state caller request
      (codec.sha256 (clean_plot_fingerprint caller request plot_id)) config.version now_ms sound
execute-IsSound codec state caller request (PlayerCommand.sell_crop_command sell) config now_ms
      sound =
    run-IsSound codec PayloadKind.sell_crop (sell_crop_decide config now_ms sell)
      (λ id s changed payload fine h.
        let v = sell_crop-Sold config now_ms sell id s h in
        record {
          coins = v.bounded;
          stacks =
              stacks_sold s.inventory changed.inventory sell.crop_item_id v.sold v.taken v.others
                fine.stacks;
        })
      (sell_crop_decide-Leaves config now_ms sell) state caller request
      (codec.sha256 (sell_crop_fingerprint caller request sell)) config.version now_ms sound
execute-IsSound codec state caller request (PlayerCommand.buy_fertilizer_command buy) config now_ms
      sound =
    run-IsSound codec PayloadKind.buy_fertilizer (buy_fertilizer_decide config now_ms buy)
      (λ id s changed payload fine h.
        let b = buy_fertilizer-BoughtFertilizer config now_ms buy id s h in
        let paid = b.paid in
        let c = fine.coins in
        record {
          coins = omega arith;
          stacks =
              stacks_added s.inventory changed.inventory b.entry.item_id buy.quantity b.stocked
                b.stack fine.stacks;
        })
      (buy_fertilizer_decide-Leaves config now_ms buy) state caller request
      (codec.sha256 (buy_fertilizer_fingerprint caller request buy)) config.version now_ms sound
execute-IsSound codec state caller request (PlayerCommand.claim_reward_command chapter_id) config
      now_ms sound =
    run-IsSound codec PayloadKind.claim_chapter_reward
      (claim_reward_decide codec.sha256 codec.marshal_reward_mail caller config now_ms chapter_id)
      (λ id s changed payload fine h.
        let c =
          claim_reward-Claimed codec.sha256 codec.marshal_reward_mail caller config now_ms
            chapter_id id s fine.stacks h in
        record { coins = c.coins_bounded; stacks = c.bounded })
      (claim_reward_decide-Leaves codec.sha256 codec.marshal_reward_mail caller config now_ms
        chapter_id)
      state caller request (codec.sha256 (claim_reward_fingerprint caller request chapter_id))
      config.version now_ms sound
