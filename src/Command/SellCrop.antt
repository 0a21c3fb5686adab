-- ===== src/Command/SellCrop.antt =====
-- `sellCrop` of server/internal/player/sell_crop.go.
use supernova_classic_farm.Base.{
  ℕ, ◌+◌, ◌-◌, ◌*◌, ◌/◌, Bool, true, false, not, ◌&&◌, ◌||◌, Option, none, some, List, [], ◌∷◌,
  ◌++◌, ok, ◌>>=◌, ◌>>◌, ◌==◌, ltb, if◌then◌else◌, max_int64,
}
use supernova_classic_farm.Base.Bytes.{big_endian32, big_endian64}
use supernova_classic_farm.Base.Map.{Map, insert, erase, read}
use supernova_classic_farm.Wire.{
  ChapterStatus, ErrorCode, failure_of, PlayerStatePatch, empty_patch, Payload, PayloadKind,
  Request, Response,
}
use supernova_classic_farm.Config.{SellRule, ConfigSnapshot, sell_rule}
use supernova_classic_farm.Player.{Task, State, credit_task, all_tasks_complete, advance_versions}
use supernova_classic_farm.Player.Views.{current_chapter}
use supernova_classic_farm.Idempotency.{Decision, Codec, fingerprint_head, run}
use supernova_classic_farm.Command.{reject_if, require, config_unavailable}

-- The `oneof amount` of SellCropRequest.
pub data SellAmount : Type 0 where
  unset : SellAmount
  quantity : ℕ → SellAmount
  sell_all : Bool → SellAmount

pub record SellCropRequest : Type 0 where
  pub crop_item_id : ℕ
  pub expected_price_version : ℕ
  pub amount : SellAmount

amount_bytes : SellAmount → List ℕ
amount_bytes SellAmount.unset = 0 ∷ []
amount_bytes (SellAmount.quantity n) = 1 ∷ big_endian32 n
amount_bytes (SellAmount.sell_all b) = 2 ∷ (if b then 1 else 0) ∷ []

-- The bytes that `sellCropFingerprint` hashes.
unfoldable pub sell_crop_fingerprint : ℕ → Request → SellCropRequest → List ℕ
unfolding amount_bytes
sell_crop_fingerprint caller request sell =
    fingerprint_head caller request
    ++ (big_endian32 sell.crop_item_id
        ++ (big_endian64 sell.expected_price_version ++ amount_bytes sell.amount))

-- `validSellAmount`
unfoldable pub valid_sell_amount : SellAmount → Bool
valid_sell_amount SellAmount.unset = false
valid_sell_amount (SellAmount.quantity n) = ltb 0 n
valid_sell_amount (SellAmount.sell_all b) = b

-- The quantity to sell of what there is: `GetQuantity`, or all if `GetSellAll`.
unfoldable pub sold_quantity : SellAmount → ℕ → ℕ
sold_quantity SellAmount.unset current = 0
sold_quantity (SellAmount.quantity n) current = n
sold_quantity (SellAmount.sell_all b) current = if b then current else 0

abbrev is_in_progress : ChapterStatus → Bool
is_in_progress ChapterStatus.in_progress = true
is_in_progress _ = false

-- A chapter in progress whose tasks are all complete can be claimed.
unfoldable pub chapter_after : ChapterStatus → List Task → ChapterStatus
chapter_after status tasks =
    if is_in_progress status && all_tasks_complete tasks then ChapterStatus.claimable else status

-- An item that is used up is deleted from the map.
unfoldable pub put_remaining : ℕ → ℕ → Map ℕ → Map ℕ
put_remaining item_id remaining inventory =
    if remaining == 0 then erase item_id inventory else insert item_id remaining inventory

abbrev pub enabled_rule : Option SellRule → Option SellRule
enabled_rule none = none
enabled_rule (some rule) = if rule.enabled then some rule else none

remaining_patch : ℕ → ℕ → PlayerStatePatch → PlayerStatePatch
remaining_patch crop_id remaining patch =
    if remaining == 0
    then record patch { inventory_removed_item_ids = crop_id ∷ [] }
    else record patch {
      inventory_upserts = record { item_id = crop_id; quantity = remaining } ∷ [];
    }

module _ {B : Type 0} where
  -- `math.MaxInt64/rule.UnitPrice` is a division by a positive price.
  unfoldable pub sell_crop_decide :
      ConfigSnapshot → ℕ → SellCropRequest → List ℕ → State B → Decision B
  unfolding remaining_patch
  sell_crop_decide config now_ms sell request_id state = do
    reject_if state
        (sell.crop_item_id == 0
          || (sell.expected_price_version == 0 || not (valid_sell_amount sell.amount)))
        (failure_of ErrorCode.invalid_argument)
    rule ←
        require state (enabled_rule (sell_rule config sell.crop_item_id))
          (failure_of ErrorCode.item_not_sellable)
    reject_if state (not (sell.expected_price_version == rule.price_version))
        (failure_of ErrorCode.price_changed)
    let current = read state.inventory sell.crop_item_id
    let sold = sold_quantity sell.amount current
    reject_if state (sold == 0 || ltb current sold)
        (failure_of ErrorCode.insufficient_item_quantity)
    reject_if state (ltb (max_int64 / rule.unit_price) sold) config_unavailable
    let total = sold * rule.unit_price
    reject_if state (ltb (max_int64 - total) state.coins) config_unavailable
    let remaining = current - sold
    let credited = credit_task 5 sold state.tasks
    let changed =
        advance_versions
          (record state {
            inventory = put_remaining sell.crop_item_id remaining state.inventory;
            coins = state.coins + total;
            tasks = credited;
            chapter = chapter_after state.chapter credited;
          })
          config.version now_ms
    ok (
      changed,
      Payload.sell_crop_response (record {
        crop_item_id = sell.crop_item_id;
        sold_quantity = sold;
        unit_price = rule.unit_price;
        total_price = total;
        patch = remaining_patch sell.crop_item_id remaining (record empty_patch {
          coin_balance = some changed.coins;
          current_chapter = some (current_chapter changed);
        });
      }),
    )

  unfoldable pub sell_crop :
      Codec B
      → State B
      → ℕ
      → Request
      → SellCropRequest
      → ConfigSnapshot
      → ℕ
      → State B × Response × Bool
  sell_crop codec state caller request sell config now_ms =
      run codec PayloadKind.sell_crop (sell_crop_decide config now_ms sell) state caller request
        (codec.sha256 (sell_crop_fingerprint caller request sell)) config.version now_ms
