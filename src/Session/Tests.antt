-- ===== src/Session/Tests.antt =====
-- Examples for the commands: one farm with a plot in each state, and a codec that keeps the
-- messages as they are and hashes to the bytes themselves.
use supernova_classic_farm.Base.Sort.{sort}
use supernova_classic_farm.Base.Bytes.{hex_encode, big_endian32, big_endian64, bytes_equal}
use supernova_classic_farm.Player.Views.{current_chapter, effect_view, plot_view, format_uuid_bytes}
use supernova_classic_farm.Growth.{
  later_boundaries, remaining_growth, max_int64_of, walk, estimate_mature_at_ms, add_modifier,
  estimate_plot_mature_at_ms, settle_growing_plot, expire, matured_plot, growth_between,
  add_growth_duration, growth_boundaries, boundary_within, inner_boundaries, boundary_after,
  growing_fields_invalid, grown_plot, effective_rate_scaled6, sum_segments, apply_growth, estimated,
  checked_rate, advance,
}
use supernova_classic_farm.Command.{consume_one, failure_at, consumed_patch, config_unavailable}
use supernova_classic_farm.Base.{
  ℕ, ◌≤◌, ◌≡◌, refl, true, false, none, some, Option, [], ◌∷◌, arith, ok, err,
}
use supernova_classic_farm.Base.Int.{pos, ◌+ℤ◌}
use supernova_classic_farm.Base.Map.{lookup, insert, erase, read}
use supernova_classic_farm.Plot.{PlotState, Plot, empty_plot}
use supernova_classic_farm.Wire.{
  ErrorCode, ChapterStatus, Failure, failure_of, empty_patch, Payload, Request,
}
use supernova_classic_farm.Config.{
  CropConfig, ConfigSnapshot, crop_for_seed, fertilizer, sell_rule, shop_entry, pet_food_config,
}
use supernova_classic_farm.Player.{
  State, checked_add_uint64, increment_task, advance_versions, ensure_career,
}
use supernova_classic_farm.Idempotency.{
  Decision, Codec, CodecLaws, error_envelope, recall, parse_request_id, store_failure, finish, run,
  retain, replay_result, replay_envelope, fingerprint_head, append_result, same_request,
  same_fingerprint, failure_record,
}
use supernova_classic_farm.Idempotency.Replay.{SameAnswer}
use supernova_classic_farm.Command.BuySeeds.{BuySeedsRequest, buy_seeds_decide}
use supernova_classic_farm.Command.Plant.{PlantRequest, plant_decide, plant, plant_fingerprint}
use supernova_classic_farm.Command.ApplyFertilizer.{
  ApplyFertilizerRequest, apply_fertilizer_decide, fertilized_plot, fertilizer_effect_id,
  apply_effect, is_active, apply_fertilizer,
}
use supernova_classic_farm.Command.Harvest.{harvest_decide, gather, harvested_quantity}
use supernova_classic_farm.Command.CleanPlot.{clean_plot_decide}
use supernova_classic_farm.Command.SellCrop.{
  SellAmount, SellCropRequest, sell_crop_decide, valid_sell_amount, sold_quantity,
}
use supernova_classic_farm.Command.Trade.{Bought, buy_seeds-Bought, Sold, sell_crop-Sold}
use supernova_classic_farm.Command.Farming.{
  Planted, plant-Planted, Harvested, harvest-Harvested, Cleaned, clean_plot-Cleaned,
}
use supernova_classic_farm.Command.Fertilizing.{Fertilized, apply_fertilizer-Fertilized}
use supernova_classic_farm.Session.{PlayerCommand, execute}
use supernova_classic_farm.Session.Retry.{execute_retry}
use supernova_classic_farm.Session.Rejection.{execute_rejected}
use supernova_classic_farm.Idempotency.Rejection.{OnlyBookkeeping}
use supernova_classic_farm.Session.Invariant.{IsSound, execute-IsSound}

pub data Message : Type 0 where
  nothing : Message
  payload_message : Payload → Message
  failure_message : Failure → Message

abbrev as_payload : Message → Option Payload
as_payload (Message.payload_message payload) = some payload
as_payload _ = none

abbrev as_failure : Message → Option Failure
as_failure (Message.failure_message failure) = some failure
as_failure _ = none

abbrev codec : Codec Message
codec = record {
  empty = Message.nothing;
  marshal_payload = Message.payload_message;
  unmarshal_payload = λ kind message. as_payload message;
  marshal_error = Message.failure_message;
  unmarshal_error = as_failure;
  sha256 = λ bytes. bytes;
  marshal_reward_mail = λ mail. some (mail.recipient_player_id ∷ mail.request_id);
}

codec_laws : CodecLaws codec
codec_laws = record { payload_round = λ payload. refl; error_round = λ failure. refl }

abbrev radish : CropConfig
radish = record {
  seed_item_id = 101;
  crop_id = 1;
  crop_item_id = 201;
  config_version = 2;
  maturity_value_scaled9 = pos 100;
  base_growth_rate_scaled6 = pos 2;
  base_yield = 20;
  enabled = true;
  steal_quantity = 2;
  max_steal_times = 2;
  protected_owner_yield = 10;
}

abbrev pub config : ConfigSnapshot
config = record {
  version = 2;
  shop_entries =
      (
        1,
        record {
          shop_entry_id = 1;
          item_id = 101;
          unit_price = 5;
          price_version = 3;
          enabled = true;
        },
      )
      ∷ [];
  crops_by_seed = (101, radish) ∷ [];
  fertilizers =
      (
        1,
        record {
          item_id = 1;
          config_version = 2;
          modifier_scaled6 = pos 1;
          duration_ms = 10;
          enabled = true;
        },
      )
      ∷ [];
  pet_food = [];
  chapters = [];
  sell_rules =
      (
        201,
        record {
          shop_entry_id = 7;
          item_id = 201;
          unit_price = 8;
          price_version = 4;
          enabled = true;
        },
      )
      ∷ [];
}

abbrev growing : Plot
growing = record (empty_plot 2) {
  state = PlotState.growing;
  planted_at_ms = 10;
  last_settled_at_ms = 10;
  maturity_value_scaled9 = pos 100;
  base_growth_rate_scaled6 = pos 2;
  estimated_mature_at_ms = some 60;
}

abbrev mature : Plot
mature = record (empty_plot 3) {
  state = PlotState.mature;
  crop_id = 1;
  crop_item_id = 201;
  base_yield = 20;
  stolen_quantity = 2;
}

abbrev pub farm : State Message
farm = record {
  player_id = 9;
  owner_epoch = 1;
  player_seq = 5;
  checkpoint_revision = 8;
  coins = 100;
  inventory = (101, 3) ∷ (201, 6) ∷ (1, 1) ∷ [];
  plots =
      (1, empty_plot 1)
      ∷ (2, growing)
      ∷ (3, mature)
      ∷ (4, record (empty_plot 4) { state = PlotState.need_cleanup })
      ∷ [];
  chapter_id = 1;
  chapter_config_version = 2;
  chapter = ChapterStatus.in_progress;
  chapter_activated_at_ms = 0;
  tasks = record { id = 1; current = 0; target = 1 } ∷ [];
  config_version = 2;
  created_at_ms = 0;
  updated_at_ms = 0;
  recent_results = [];
  pending_outbox = [];
  career = none;
  crop_compendium = none;
}

-- Sixteen zero bytes in hexadecimal.
abbrev request : Request
request = record {
  protocol_version = 1;
  action = 200;
  request_id =
      b'0' ∷ b'0' ∷ b'0' ∷ b'0' ∷ b'0' ∷ b'0' ∷ b'0' ∷ b'0' ∷ b'0' ∷ b'0' ∷ b'0' ∷ b'0' ∷ b'0'
      ∷ b'0' ∷ b'0' ∷ b'0' ∷ b'0' ∷ b'0' ∷ b'0' ∷ b'0' ∷ b'0' ∷ b'0' ∷ b'0' ∷ b'0' ∷ b'0' ∷ b'0'
      ∷ b'0' ∷ b'0' ∷ b'0' ∷ b'0' ∷ b'0' ∷ b'0' ∷ [];
  target_player_id = 9;
}

abbrev outcome : Decision Message → State Message × Payload
outcome (ok result) = result
outcome (err failure) = (farm, Payload.clean_plot_response empty_patch)

abbrev buy : BuySeedsRequest
buy = record { shop_entry_id = 1; quantity = 4; expected_price_version = 3 }

abbrev bought : State Message × Payload
bought = outcome (buy_seeds_decide config 20 buy [] farm)

buy-accepted : buy_seeds_decide config 20 buy [] farm ≡ ok (bought.0, bought.1)
unfolding buy_seeds_decide shop_entry lookup pet_food_config read
buy-accepted = refl

buy_seeds-Bought_example : Bought config buy farm bought.0 bought.1
buy_seeds-Bought_example = buy_seeds-Bought config 20 buy [] farm buy-accepted

abbrev sell : SellCropRequest
sell = record { crop_item_id = 201; expected_price_version = 4; amount = SellAmount.sell_all true }

abbrev sold : State Message × Payload
sold = outcome (sell_crop_decide config 20 sell [] farm)

sell-accepted : sell_crop_decide config 20 sell [] farm ≡ ok (sold.0, sold.1)
unfolding sell_crop_decide valid_sell_amount sell_rule lookup sold_quantity read
sell-accepted = refl

sell_crop-Sold_example : Sold config sell farm sold.0 sold.1
sell_crop-Sold_example = sell_crop-Sold config 20 sell [] farm sell-accepted

abbrev sowing : PlantRequest
sowing = record { plot_id = 1; seed_item_id = 101 }

abbrev sown : State Message × Payload
sown = outcome (plant_decide config 20 sowing [] farm)

sowing-accepted : plant_decide config 20 sowing [] farm ≡ ok (sown.0, sown.1)
unfolding plant_decide lookup empty_plot crop_for_seed read estimate_mature_at_ms
sowing-accepted = refl

plant-Planted_example : Planted config 20 sowing farm sown.0 sown.1
plant-Planted_example = plant-Planted config 20 sowing [] farm sowing-accepted

abbrev reaped : State Message × Payload
reaped = outcome (harvest_decide config 20 3 [] farm)

harvest-accepted : harvest_decide config 20 3 [] farm ≡ ok (reaped.0, reaped.1)
unfolding harvest_decide lookup harvested_quantity read gather checked_add_uint64 ensure_career
harvest-accepted = refl

harvest-Harvested_example : Harvested 3 farm reaped.0 reaped.1
harvest-Harvested_example = harvest-Harvested config 20 3 [] farm harvest-accepted

abbrev cleaned : State Message × Payload
cleaned = outcome (clean_plot_decide config 20 4 [] farm)

cleaning-accepted : clean_plot_decide config 20 4 [] farm ≡ ok (cleaned.0, cleaned.1)
unfolding clean_plot_decide lookup
cleaning-accepted = refl

clean_plot-Cleaned_example : Cleaned 4 farm cleaned.0 cleaned.1
clean_plot-Cleaned_example = clean_plot-Cleaned config 20 4 [] farm cleaning-accepted

abbrev spreading : ApplyFertilizerRequest
spreading = record { plot_id = 2; fertilizer_item_id = 1 }

abbrev spread : State Message × Payload
spread = outcome (apply_fertilizer_decide codec.sha256 9 config 20 spreading [] farm)

spreading-accepted :
    apply_fertilizer_decide codec.sha256 9 config 20 spreading [] farm ≡ ok (spread.0, spread.1)
unfolding apply_fertilizer_decide lookup is_active empty_plot fertilizer read apply_effect
    settle_growing_plot growing_fields_invalid apply_growth growth_between max_int64_of sum_segments
    growth_boundaries sort advance effective_rate_scaled6 remaining_growth big_endian32 big_endian64
    hex_encode ◌+ℤ◌ erase insert fertilized_plot fertilizer_effect_id config_unavailable consume_one
    consumed_patch failure_at add_growth_duration add_modifier boundary_after boundary_within
    checked_rate estimate_plot_mature_at_ms estimated expire grown_plot inner_boundaries
    later_boundaries matured_plot walk current_chapter effect_view format_uuid_bytes plot_view
    advance_versions increment_task empty_patch failure_of
spreading-accepted = refl

apply_fertilizer-Fertilized_example :
    Fertilized codec.sha256 9 config 20 spreading [] farm spread.0 spread.1
apply_fertilizer-Fertilized_example =
    apply_fertilizer-Fertilized codec.sha256 9 config 20 spreading [] farm spreading-accepted

execute_retry_example :
    let (after, response, dirty) =
      execute codec farm 9 request (PlayerCommand.buy_seeds_command buy) config 20 in
    let (after2, response2, dirty2) =
      execute codec after 9 request (PlayerCommand.buy_seeds_command buy) config 30 in
    (after2 ≡ after) × (dirty2 ≡ false) × SameAnswer response response2
execute_retry_example =
    execute_retry codec codec_laws farm 9 request (PlayerCommand.buy_seeds_command buy) config
      config 20 30 refl

farm-stacks : (item_id : ℕ) → read farm.inventory item_id ≤ 300
unfolding read lookup
farm-stacks item_id = ground arith

farm-IsSound : IsSound farm
farm-IsSound = record { coins = omega arith; stacks = farm-stacks; results = omega arith }

execute-IsSound_example :
    IsSound (execute codec farm 9 request (PlayerCommand.buy_seeds_command buy) config 20).0
execute-IsSound_example =
    execute-IsSound codec farm 9 request (PlayerCommand.buy_seeds_command buy) config 20
      farm-IsSound

-- The plot has matured in the meantime, which the settlement finds out after the checks.
abbrev too_late : PlayerCommand
too_late = PlayerCommand.apply_fertilizer_command spreading

late-refused : (execute codec farm 9 request too_late config 1000000).1.payload ≡ none
unfolding execute apply_fertilizer run parse_request_id recall finish apply_fertilizer_decide lookup
    is_active empty_plot fertilizer read apply_effect settle_growing_plot growing_fields_invalid
    apply_growth growth_between max_int64_of sum_segments growth_boundaries sort advance
    effective_rate_scaled6 remaining_growth store_failure error_envelope
late-refused = refl

execute_rejected_example :
    OnlyBookkeeping farm (execute codec farm 9 request too_late config 1000000).0
execute_rejected_example =
    execute_rejected codec farm 9 request too_late config 1000000 late-refused

abbrev code_of : Option Failure → Option ErrorCode
code_of none = none
code_of (some failure) = some failure.code

late_code :
    code_of (execute codec farm 9 request too_late config 1000000).1.error
    ≡ some ErrorCode.plot_state_conflict
unfolding execute apply_fertilizer run parse_request_id recall finish apply_fertilizer_decide lookup
    is_active empty_plot fertilizer read apply_effect settle_growing_plot growing_fields_invalid
    apply_growth growth_between max_int64_of sum_segments growth_boundaries sort advance
    effective_rate_scaled6 remaining_growth store_failure error_envelope failure_at failure_of
late_code = refl

-- A configuration without crops, and the same planting once they are there.
abbrev no_crops : ConfigSnapshot
no_crops = record config { crops_by_seed = [] }

abbrev sowing_command : PlayerCommand
sowing_command = PlayerCommand.plant_command sowing

same_refusal :
    (let (after, response, dirty) = execute codec farm 9 request sowing_command no_crops 20 in
      (execute codec after 9 request sowing_command config 100000000).1.error)
    ≡ some config_unavailable
unfolding execute plant run parse_request_id recall finish plant_decide lookup empty_plot
    crop_for_seed config_unavailable store_failure append_result retain same_request failure_record
    bytes_equal same_fingerprint plant_fingerprint fingerprint_head replay_result replay_envelope
same_refusal = refl
