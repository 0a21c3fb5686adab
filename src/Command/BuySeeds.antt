-- ===== src/Command/BuySeeds.antt =====
-- `buySeeds` of server/internal/player/buy_seeds.go.
use supernova_classic_farm.Base.{
  ℕ, ◌+◌, ◌-◌, ◌*◌, ◌/◌, Bool, true, false, not, ◌||◌, Option, none, some, List, [], ◌∷◌, ◌++◌, ok,
  ◌>>=◌, ◌>>◌, ◌==◌, ltb, u32, max_int64,
}
use supernova_classic_farm.Base.Bytes.{big_endian32, big_endian64}
use supernova_classic_farm.Base.Map.{insert, read}
use supernova_classic_farm.Wire.{
  ErrorCode, failure_of, empty_patch, Payload, PayloadKind, Request, Response,
}
use supernova_classic_farm.Config.{ConfigSnapshot, shop_entry, pet_food_config, shop_entry_view}
use supernova_classic_farm.Player.{State, basic_fertilizer_id, credit_task, advance_versions}
use supernova_classic_farm.Player.Views.{current_chapter}
use supernova_classic_farm.Idempotency.{Decision, Codec, fingerprint_head, run}
use supernova_classic_farm.Command.{reject_if, require}

pub record BuySeedsRequest : Type 0 where
  pub shop_entry_id : ℕ
  pub quantity : ℕ
  pub expected_price_version : ℕ

-- The bytes that `buySeedsFingerprint` hashes.
unfoldable pub buy_seeds_fingerprint : ℕ → Request → BuySeedsRequest → List ℕ
buy_seeds_fingerprint caller request buy =
    fingerprint_head caller request
    ++ (big_endian32 buy.shop_entry_id
        ++ (big_endian32 buy.quantity ++ big_endian64 buy.expected_price_version))

abbrev pub is_some : {A : Type 0} → Option A → Bool
is_some none = false
is_some (some a) = true

module _ {B : Type 0} where
  -- `math.MaxInt64/entry.UnitPrice` is a division by a positive price.
  unfoldable pub buy_seeds_decide :
      ConfigSnapshot → ℕ → BuySeedsRequest → List ℕ → State B → Decision B
  buy_seeds_decide config now_ms buy request_id state = do
    reject_if state (buy.quantity == 0 || ltb 50 buy.quantity)
        (failure_of ErrorCode.invalid_argument)
    entry ←
        require state (shop_entry config buy.shop_entry_id)
          (failure_of ErrorCode.shop_entry_not_found)
    reject_if state (not entry.enabled) (failure_of ErrorCode.shop_entry_disabled)
    reject_if state (entry.item_id == basic_fertilizer_id)
        (failure_of ErrorCode.shop_entry_not_found)
    reject_if state (is_some (pet_food_config config entry.item_id))
        (failure_of ErrorCode.shop_entry_not_found)
    reject_if state (not (buy.expected_price_version == entry.price_version))
        (record (failure_of ErrorCode.price_changed) {
          latest_shop_entry = some (shop_entry_view entry);
        })
    reject_if state (ltb (max_int64 / entry.unit_price) buy.quantity)
        (failure_of ErrorCode.invalid_argument)
    let total = buy.quantity * entry.unit_price
    reject_if state (ltb state.coins total) (failure_of ErrorCode.insufficient_coins)
    let current = read state.inventory entry.item_id
    reject_if state (ltb 300 (current + buy.quantity)) (failure_of ErrorCode.inventory_stack_limit)
    let changed =
        advance_versions
          (record state {
            coins = state.coins - total;
            inventory = insert entry.item_id (u32 (current + buy.quantity)) state.inventory;
            tasks = credit_task 1 buy.quantity state.tasks;
          })
          config.version now_ms
    ok (
      changed,
      Payload.buy_seeds_response (record {
        shop_entry_id = buy.shop_entry_id;
        item_id = entry.item_id;
        quantity = buy.quantity;
        unit_price = entry.unit_price;
        total_price = total;
        patch = record empty_patch {
          coin_balance = some changed.coins;
          inventory_upserts =
              record { item_id = entry.item_id; quantity = read changed.inventory entry.item_id }
              ∷ [];
          current_chapter = some (current_chapter changed);
        };
      }),
    )

  unfoldable pub buy_seeds :
      Codec B
      → State B
      → ℕ
      → Request
      → BuySeedsRequest
      → ConfigSnapshot
      → ℕ
      → State B × Response × Bool
  buy_seeds codec state caller request buy config now_ms =
      run codec PayloadKind.buy_seeds (buy_seeds_decide config now_ms buy) state caller request
        (codec.sha256 (buy_seeds_fingerprint caller request buy)) config.version now_ms
