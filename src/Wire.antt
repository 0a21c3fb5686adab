-- ===== src/Wire.antt =====
-- The messages between a client and a Zone that the commands use (proto/classicfarm/v1/ws):
-- requests, responses, errors and the views of the player's state in them. A `string` field that
-- holds a UUID is its ASCII bytes. Enumerations are their numbers where the code only passes or
-- compares them.
use supernova_classic_farm.Base.{ℕ, Bool, false, Option, none, List, []}
use supernova_classic_farm.Plot.{PlotState}

-- classicfarm.ws.v1.chapter.ChapterStatus
pub data ChapterStatus : Type 0 where
  unspecified in_progress claimable claimed : ChapterStatus

-- The codes of `Error` that the commands answer with.
pub data ErrorCode : Type 0 where
  invalid_argument request_id_conflict request_outcome_unknown config_unavailable : ErrorCode
  shop_entry_not_found shop_entry_disabled price_changed config_entry_disabled : ErrorCode
  insufficient_coins inventory_type_limit inventory_stack_limit item_not_owned : ErrorCode
  insufficient_item_quantity item_not_sellable plot_not_found plot_state_conflict : ErrorCode
  fertilizer_already_active crop_not_mature chapter_not_found : ErrorCode
  chapter_reward_already_claimed chapter_not_claimable : ErrorCode

pub record ShopEntryView : Type 0 where
  pub shop_entry_id : ℕ
  pub item_id : ℕ
  pub unit_price : ℕ
  pub price_version : ℕ
  pub enabled : Bool

pub record EffectView : Type 0 where
  pub effect_instance_id : List ℕ
  pub effect_item_id : ℕ
  pub effect_config_version : ℕ
  pub start_at_ms : ℕ
  pub end_at_ms : ℕ
  pub source_player_id : Option ℕ

pub record PlotView : Type 0 where
  pub plot_id : ℕ
  pub plot_state : PlotState
  pub crop_id : ℕ
  pub crop_config_version : ℕ
  pub planted_at_ms : ℕ
  pub estimated_mature_at_ms : ℕ
  pub harvestable_quantity : ℕ
  pub fertilizer_effect : Option EffectView
  pub pest_effect : Option EffectView

pub record ItemStackView : Type 0 where
  pub item_id : ℕ
  pub quantity : ℕ

pub record TaskProgressView : Type 0 where
  pub task_id : ℕ
  pub current_value : ℕ
  pub target_value : ℕ
  pub completed : Bool

pub record ChapterView : Type 0 where
  pub chapter_id : ℕ
  pub status : ChapterStatus
  pub tasks : List TaskProgressView

pub record PlayerCareerView : Type 0 where
  pub total_harvested_crop_quantity : ℕ
  pub total_stolen_crop_quantity : ℕ

-- CropCompendiumView is its one field, the unlocked crop IDs.
pub record PlayerStatePatch : Type 0 where
  pub coin_balance : Option ℕ
  pub inventory_upserts : List ItemStackView
  pub inventory_removed_item_ids : List ℕ
  pub plot_upserts : List PlotView
  pub current_chapter : Option ChapterView
  pub career : Option PlayerCareerView
  pub crop_compendium : Option (List ℕ)

-- A patch with no field set.
unfoldable pub empty_patch : PlayerStatePatch
empty_patch = record {
  coin_balance = none;
  inventory_upserts = [];
  inventory_removed_item_ids = [];
  plot_upserts = [];
  current_chapter = none;
  career = none;
  crop_compendium = none;
}

-- wsv1.Error, without the fields that no command sets.
pub record Failure : Type 0 where
  pub code : ErrorCode
  pub retryable : Bool
  pub latest_shop_entry : Option ShopEntryView
  pub current_plot : Option PlotView

-- `&wsv1.Error{Code: code}`
unfoldable pub failure_of : ErrorCode → Failure
failure_of error_code = record {
  code = error_code;
  retryable = false;
  latest_shop_entry = none;
  current_plot = none;
}

pub record BuySeedsResponse : Type 0 where
  pub shop_entry_id : ℕ
  pub item_id : ℕ
  pub quantity : ℕ
  pub unit_price : ℕ
  pub total_price : ℕ
  pub patch : PlayerStatePatch

pub record PlantResponse : Type 0 where
  pub consumed_seed_item_id : ℕ
  pub patch : PlayerStatePatch

pub record ApplyFertilizerResponse : Type 0 where
  pub consumed_fertilizer_item_id : ℕ
  pub effect_instance_id : List ℕ
  pub patch : PlayerStatePatch

pub record HarvestResponse : Type 0 where
  pub crop_item_id : ℕ
  pub harvested_quantity : ℕ
  pub patch : PlayerStatePatch

pub record SellCropResponse : Type 0 where
  pub crop_item_id : ℕ
  pub sold_quantity : ℕ
  pub unit_price : ℕ
  pub total_price : ℕ
  pub patch : PlayerStatePatch

pub record BuyFertilizerResponse : Type 0 where
  pub shop_entry_id : ℕ
  pub item_id : ℕ
  pub quantity : ℕ
  pub unit_price : ℕ
  pub total_price : ℕ
  pub patch : PlayerStatePatch

pub record ClaimChapterRewardResponse : Type 0 where
  pub chapter_id : ℕ
  pub coin_granted : ℕ
  pub items_added_to_inventory : List ItemStackView
  pub items_pending_mail : List ItemStackView
  pub patch : PlayerStatePatch

-- The `oneof payload` of a response.
pub data Payload : Type 0 where
  buy_seeds_response : BuySeedsResponse → Payload
  plant_response : PlantResponse → Payload
  apply_fertilizer_response : ApplyFertilizerResponse → Payload
  harvest_response : HarvestResponse → Payload
  clean_plot_response : PlayerStatePatch → Payload
  sell_crop_response : SellCropResponse → Payload
  claim_chapter_reward_response : ClaimChapterRewardResponse → Payload
  buy_fertilizer_response : BuyFertilizerResponse → Payload

-- The message type that a command decodes a stored payload as.
pub data PayloadKind : Type 0 where
  buy_seeds plant apply_fertilizer harvest clean_plot sell_crop : PayloadKind
  claim_chapter_reward buy_fertilizer : PayloadKind

abbrev pub kind_of : Payload → PayloadKind
kind_of (Payload.buy_seeds_response r) = PayloadKind.buy_seeds
kind_of (Payload.plant_response r) = PayloadKind.plant
kind_of (Payload.apply_fertilizer_response r) = PayloadKind.apply_fertilizer
kind_of (Payload.harvest_response r) = PayloadKind.harvest
kind_of (Payload.clean_plot_response r) = PayloadKind.clean_plot
kind_of (Payload.sell_crop_response r) = PayloadKind.sell_crop
kind_of (Payload.claim_chapter_reward_response r) = PayloadKind.claim_chapter_reward
kind_of (Payload.buy_fertilizer_response r) = PayloadKind.buy_fertilizer

-- The Action that a command stores as the type of its response.
abbrev pub action_of : PayloadKind → ℕ
action_of PayloadKind.buy_seeds = 200
action_of PayloadKind.plant = 201
action_of PayloadKind.apply_fertilizer = 202
action_of PayloadKind.harvest = 203
action_of PayloadKind.clean_plot = 204
action_of PayloadKind.sell_crop = 205
action_of PayloadKind.claim_chapter_reward = 206
action_of PayloadKind.buy_fertilizer = 207

-- The fields of a request's envelope that a command reads; its payload is a separate argument,
-- since Runtime.Handle has checked that it is there.
pub record Request : Type 0 where
  pub protocol_version : ℕ
  pub action : ℕ
  pub request_id : List ℕ
  pub target_player_id : ℕ

pub record StateVersion : Type 0 where
  pub owner_epoch : ℕ
  pub player_seq : ℕ

-- A RESPONSE envelope.
pub record Response : Type 0 where
  pub protocol_version : ℕ
  pub action : ℕ
  pub request_id : List ℕ
  pub target_player_id : ℕ
  pub state_version : StateVersion
  pub server_time_ms : ℕ
  pub replayed : Bool
  pub error : Option Failure
  pub payload : Option Payload
