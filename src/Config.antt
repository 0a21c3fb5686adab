-- ===== src/Config.antt =====
-- The immutable configuration of a Zone (server/internal/player/config.go). A price is an int64
-- that `newConfigSnapshot` has checked to be positive, so it is a number.
use supernova_classic_farm.Base.{ℕ, Bool, Option, List}
use supernova_classic_farm.Base.Int.{ℤ}
use supernova_classic_farm.Base.Map.{Map, lookup}
use supernova_classic_farm.Wire.{ShopEntryView}
use supernova_classic_farm.Player.{Task}

pub record ShopEntry : Type 0 where
  pub shop_entry_id : ℕ
  pub item_id : ℕ
  pub unit_price : ℕ
  pub price_version : ℕ
  pub enabled : Bool

pub record CropConfig : Type 0 where
  pub seed_item_id : ℕ
  pub crop_id : ℕ
  pub crop_item_id : ℕ
  pub config_version : ℕ
  pub maturity_value_scaled9 : ℤ
  pub base_growth_rate_scaled6 : ℤ
  pub base_yield : ℕ
  pub enabled : Bool
  pub steal_quantity : ℕ
  pub max_steal_times : ℕ
  pub protected_owner_yield : ℕ

pub record FertilizerConfig : Type 0 where
  pub item_id : ℕ
  pub config_version : ℕ
  pub modifier_scaled6 : ℤ
  pub duration_ms : ℕ
  pub enabled : Bool

pub record PetFoodConfig : Type 0 where
  pub item_id : ℕ
  pub duration_seconds : ℕ
  pub config_version : ℕ
  pub enabled : Bool

pub record SellRule : Type 0 where
  pub shop_entry_id : ℕ
  pub item_id : ℕ
  pub unit_price : ℕ
  pub price_version : ℕ
  pub enabled : Bool

pub record RewardItem : Type 0 where
  pub item_id : ℕ
  pub quantity : ℕ

-- `newConfigSnapshot` has checked that a reward takes no coins.
pub record ChapterConfig : Type 0 where
  pub chapter_id : ℕ
  pub config_version : ℕ
  pub tasks : List Task
  pub reward_coins : ℕ
  pub reward_items : List RewardItem
  pub next_chapter_id : ℕ

pub record ConfigSnapshot : Type 0 where
  pub version : ℕ
  pub shop_entries : Map ShopEntry
  pub crops_by_seed : Map CropConfig
  pub fertilizers : Map FertilizerConfig
  pub pet_food : Map PetFoodConfig
  pub sell_rules : Map SellRule
  pub chapters : Map ChapterConfig

-- The two-value reads of the snapshot: `none` is `false` in the second place.
unfoldable pub shop_entry : ConfigSnapshot → ℕ → Option ShopEntry
shop_entry config entry_id = lookup entry_id config.shop_entries

unfoldable pub crop_for_seed : ConfigSnapshot → ℕ → Option CropConfig
crop_for_seed config item_id = lookup item_id config.crops_by_seed

unfoldable pub fertilizer : ConfigSnapshot → ℕ → Option FertilizerConfig
fertilizer config item_id = lookup item_id config.fertilizers

unfoldable pub pet_food_config : ConfigSnapshot → ℕ → Option PetFoodConfig
pet_food_config config item_id = lookup item_id config.pet_food

unfoldable pub sell_rule : ConfigSnapshot → ℕ → Option SellRule
sell_rule config item_id = lookup item_id config.sell_rules

unfoldable pub chapter_config : ConfigSnapshot → ℕ → Option ChapterConfig
chapter_config config chapter_id = lookup chapter_id config.chapters

-- `ShopEntry.View`
unfoldable pub shop_entry_view : ShopEntry → ShopEntryView
shop_entry_view entry = record {
  shop_entry_id = entry.shop_entry_id;
  item_id = entry.item_id;
  unit_price = entry.unit_price;
  price_version = entry.price_version;
  enabled = entry.enabled;
}
