-- ===== src/Command/Trade.antt =====
-- What the commands that trade items for coins do when they are accepted
-- (server/internal/player/buy_seeds.go, buy_fertilizer.go and sell_crop.go).
use native.Mathlib.Nat.{mul-le-mul_right, div-mul-le_self}
use supernova_classic_farm.Base.{
  ◌⊎◌, inl, inr, ℕ, ◌+◌, ◌-◌, ◌*◌, ◌/◌, ◌≤◌, ◌<◌, ◌≡◌, refl, sym, ap, ◌∙◌, Bool, true, false, not,
  ◌||◌, Option, none, some, List, arith, ok, ◌==◌, ltb, if◌then◌else◌, u64, max_int64, ltb_false→le,
}
use supernova_classic_farm.Base.Map.{read}
use supernova_classic_farm.Wire.{Payload, PayloadKind, kind_of}
use supernova_classic_farm.Config.{
  ShopEntry, SellRule, ConfigSnapshot, sell_rule, shop_entry, pet_food_config,
}
use supernova_classic_farm.Player.{State, basic_fertilizer_id, advance_versions}
use supernova_classic_farm.Command.Accepted.{passed_check, found_value, accepted, not-false}
use supernova_classic_farm.Command.Stock.{restocked, stack_bound, read-put_remaining}
use supernova_classic_farm.Command.SellCrop.{
  SellAmount, SellCropRequest, valid_sell_amount, sold_quantity, enabled_rule, sell_crop_decide,
}
use supernova_classic_farm.Command.BuyFertilizer.{
  BuyFertilizerRequest, fertilizer_entry, buy_fertilizer_decide,
}
use supernova_classic_farm.Command.BuySeeds.{BuySeedsRequest, buy_seeds_decide, is_some}

-- What is true of a purchase that was accepted.
pub record Bought {B : Type 0} (config : ConfigSnapshot) (buy : BuySeedsRequest)
    (state changed : State B) (payload : Payload) : Type 0 where
  pub entry : ShopEntry
  pub offered : shop_entry config buy.shop_entry_id ≡ some entry
  pub enabled : entry.enabled ≡ true
  pub price : buy.expected_price_version ≡ entry.price_version
  pub positive : 0 < buy.quantity
  pub paid : changed.coins + buy.quantity * entry.unit_price ≡ state.coins
  pub stocked :
      (item_id : ℕ)
      → read changed.inventory item_id ≡ (
          if entry.item_id == item_id
          then read state.inventory item_id + buy.quantity
          else read state.inventory item_id)
  pub stack : read changed.inventory entry.item_id ≤ 300
  pub plots : changed.plots ≡ state.plots
  pub player_seq : changed.player_seq ≡ u64 (state.player_seq + 1)
  pub results : changed.recent_results ≡ state.recent_results
  pub answer : kind_of payload ≡ PayloadKind.buy_seeds

same_number : (m n : ℕ) → not (m == n) ≡ false → m ≡ n
same_number m n h = ground arith

positive_size : (n : ℕ) → (n == 0 || ltb 50 n) ≡ false → 0 < n
positive_size n h = ground arith

-- A purchase that is accepted is of an enabled shop entry at its current price version and of a
-- positive quantity. It takes exactly the quantity times the unit price in coins, adds the
-- quantity to the entry's item and to no other, leaves at most 300 of it, keeps the plots and
-- stored results, advances the player's sequence number and answers with a purchase.
pub buy_seeds-Bought :
    {B : Type 0} (config : ConfigSnapshot) (now_ms : ℕ) (buy : BuySeedsRequest)
    (request_id : List ℕ) (state : State B) {changed : State B} {payload : Payload}
    → buy_seeds_decide config now_ms buy request_id state ≡ ok (changed, payload)
    → Bought config buy state changed payload
unfolding buy_seeds_decide advance_versions
buy_seeds-Bought config now_ms buy request_id state {changed} {payload} h =
    let (size, h1) = passed_check state (buy.quantity == 0 || ltb 50 buy.quantity) _ _ h in
    let (entry, found, h2) = found_value state (shop_entry config buy.shop_entry_id) _ _ h1 in
    let (on, h3) = passed_check state (not entry.enabled) _ _ h2 in
    let (_, h4) = passed_check state (entry.item_id == basic_fertilizer_id) _ _ h3 in
    let (_, h5) = passed_check state (is_some (pet_food_config config entry.item_id)) _ _ h4 in
    let (version, h6) =
      passed_check state (not (buy.expected_price_version == entry.price_version)) _ _ h5 in
    let (_, h7) = passed_check state (ltb (max_int64 / entry.unit_price) buy.quantity) _ _ h6 in
    let (enough, h8) =
      passed_check state (ltb state.coins (buy.quantity * entry.unit_price)) _ _ h7 in
    let (room, h9) =
      passed_check state (ltb 300 (read state.inventory entry.item_id + buy.quantity)) _ _ h8 in
    let (same, told) = accepted _ refl h9 in
    record {
      entry = entry;
      offered = found;
      enabled = not-false entry.enabled on;
      price = same_number _ _ version;
      positive = positive_size buy.quantity size;
      paid = rw (ap (λ s. s.coins) same) (let le = ltb_false→le _ _ enough in omega arith);
      stocked = λ item_id.
          ap (λ s. read s.inventory item_id) same
          ∙ restocked state.inventory entry.item_id item_id buy.quantity room;
      stack =
          rw (ap (λ s. read s.inventory entry.item_id) same)
            (stack_bound state.inventory entry.item_id buy.quantity room);
      plots = ap (λ s. s.plots) same;
      player_seq = ap (λ s. s.player_seq) same;
      results = ap (λ s. s.recent_results) same;
      answer = ap kind_of told;
    }

-- What is true of a purchase of fertilizer that was accepted.
pub record BoughtFertilizer {B : Type 0} (config : ConfigSnapshot) (buy : BuyFertilizerRequest)
    (state changed : State B) (payload : Payload) : Type 0 where
  pub entry : ShopEntry
  pub offered : shop_entry config buy.shop_entry_id ≡ some entry
  pub is_fertilizer : entry.item_id ≡ basic_fertilizer_id
  pub enabled : entry.enabled ≡ true
  pub price : buy.expected_price_version ≡ entry.price_version
  pub positive : 0 < buy.quantity
  pub paid : changed.coins + buy.quantity * entry.unit_price ≡ state.coins
  pub stocked :
      (item_id : ℕ)
      → read changed.inventory item_id ≡ (
          if entry.item_id == item_id
          then read state.inventory item_id + buy.quantity
          else read state.inventory item_id)
  pub stack : read changed.inventory entry.item_id ≤ 300
  pub plots : changed.plots ≡ state.plots
  pub tasks : changed.tasks ≡ state.tasks
  pub player_seq : changed.player_seq ≡ u64 (state.player_seq + 1)
  pub results : changed.recent_results ≡ state.recent_results
  pub answer : kind_of payload ≡ PayloadKind.buy_fertilizer

fertilizer_entry-some :
    (found : Option ShopEntry) (entry : ShopEntry)
    → fertilizer_entry found ≡ some entry
    → (found ≡ some entry) × (entry.item_id ≡ basic_fertilizer_id)
fertilizer_entry-some none entry h = cc
fertilizer_entry-some (some other) entry h = ground arith

-- A purchase of fertilizer that is accepted is of an enabled shop entry for the basic fertilizer
-- at its current price version and of a positive quantity. It takes exactly the quantity times
-- the unit price in coins, adds the quantity to that item and to no other, leaves at most 300 of
-- it, keeps plots, tasks and stored results, advances the sequence number and answers with such a
-- purchase.
pub buy_fertilizer-BoughtFertilizer :
    {B : Type 0} (config : ConfigSnapshot) (now_ms : ℕ) (buy : BuyFertilizerRequest)
    (request_id : List ℕ) (state : State B) {changed : State B} {payload : Payload}
    → buy_fertilizer_decide config now_ms buy request_id state ≡ ok (changed, payload)
    → BoughtFertilizer config buy state changed payload
unfolding buy_fertilizer_decide advance_versions
buy_fertilizer-BoughtFertilizer config now_ms buy request_id state {changed} {payload} h =
    let (size, h1) = passed_check state (buy.quantity == 0 || ltb 50 buy.quantity) _ _ h in
    let (entry, found, h2) =
      found_value state (fertilizer_entry (shop_entry config buy.shop_entry_id)) _ _ h1 in
    let (offered, is_fertilizer) = fertilizer_entry-some _ entry found in
    let (on, h3) = passed_check state (not entry.enabled) _ _ h2 in
    let (version, h6) =
      passed_check state (not (buy.expected_price_version == entry.price_version)) _ _ h3 in
    let (_, h7) = passed_check state (ltb (max_int64 / entry.unit_price) buy.quantity) _ _ h6 in
    let (enough, h8) =
      passed_check state (ltb state.coins (buy.quantity * entry.unit_price)) _ _ h7 in
    let (room, h9) =
      passed_check state (ltb 300 (read state.inventory entry.item_id + buy.quantity)) _ _ h8 in
    let (same, told) = accepted _ refl h9 in
    record {
      entry = entry;
      offered = offered;
      is_fertilizer = is_fertilizer;
      enabled = not-false entry.enabled on;
      price = same_number _ _ version;
      positive = positive_size buy.quantity size;
      paid = rw (ap (λ s. s.coins) same) (let le = ltb_false→le _ _ enough in omega arith);
      stocked = λ item_id.
          ap (λ s. read s.inventory item_id) same
          ∙ restocked state.inventory entry.item_id item_id buy.quantity room;
      stack =
          rw (ap (λ s. read s.inventory entry.item_id) same)
            (stack_bound state.inventory entry.item_id buy.quantity room);
      plots = ap (λ s. s.plots) same;
      tasks = ap (λ s. s.tasks) same;
      player_seq = ap (λ s. s.player_seq) same;
      results = ap (λ s. s.recent_results) same;
      answer = ap kind_of told;
    }

-- What is true of a sale that was accepted.
pub record Sold {B : Type 0} (config : ConfigSnapshot) (sell : SellCropRequest)
    (state changed : State B) (payload : Payload) : Type 0 where
  pub rule : SellRule
  pub sold : ℕ
  pub listed : sell_rule config sell.crop_item_id ≡ some rule
  pub enabled : rule.enabled ≡ true
  pub price : sell.expected_price_version ≡ rule.price_version
  pub amount :
      (sell.amount ≡ SellAmount.quantity sold)
      ⊎ ((sell.amount ≡ SellAmount.sell_all true) × (sold ≡ read state.inventory sell.crop_item_id))
  pub positive : 0 < sold
  pub taken :
      read changed.inventory sell.crop_item_id + sold ≡ read state.inventory sell.crop_item_id
  pub others :
      (item_id : ℕ)
      → (sell.crop_item_id == item_id) ≡ false
      → read changed.inventory item_id ≡ read state.inventory item_id
  pub paid : changed.coins ≡ state.coins + sold * rule.unit_price
  pub bounded : changed.coins ≤ max_int64
  pub plots : changed.plots ≡ state.plots
  pub player_seq : changed.player_seq ≡ u64 (state.player_seq + 1)
  pub results : changed.recent_results ≡ state.recent_results
  pub answer : kind_of payload ≡ PayloadKind.sell_crop

kept_if :
    (b : Bool) (rule other : SellRule)
    → (if b then some rule else none) ≡ some other
    → (rule ≡ other) × (b ≡ true)
kept_if true rule other h = (cc, refl)
kept_if false rule other h = cc

enabled_rule-some :
    (listed : Option SellRule) (rule : SellRule)
    → enabled_rule listed ≡ some rule
    → (listed ≡ some rule) × (rule.enabled ≡ true)
enabled_rule-some none rule h = cc
enabled_rule-some (some other) rule h =
    let (same, on) = kept_if other.enabled other rule h in
    (ap some same, ap (λ r. r.enabled) (sym same) ∙ on)

some_left :
    (sold current : ℕ) → (sold == 0 || ltb current sold) ≡ false → (0 < sold) × (sold ≤ current)
some_left sold current h = (ground arith, ground arith)

-- A quantity that is not 0 was asked for, or is all there is.
requested :
    (amount : SellAmount) (current : ℕ)
    → 0 < sold_quantity amount current
    → (amount ≡ SellAmount.quantity (sold_quantity amount current))
      ⊎ ((amount ≡ SellAmount.sell_all true) × (sold_quantity amount current ≡ current))
unfolding sold_quantity
requested SellAmount.unset current h = absurd (omega (arith, h))
requested (SellAmount.quantity n) current h = inl refl
requested (SellAmount.sell_all true) current h = inr (refl, refl)
requested (SellAmount.sell_all false) current h = absurd (omega (arith, h))

put_back :
    (item_id sold current : ℕ)
    → sold ≤ current
    → (if item_id == item_id then current - sold else current) + sold ≡ current
put_back item_id sold current le = ground arith

-- The product of a quantity and a price that pass the check of the division.
product_bound : (sold price : ℕ) → ltb (max_int64 / price) sold ≡ false → sold * price ≤ max_int64
product_bound sold price h =
    let le = mul-le-mul_right price (ltb_false→le _ _ h) in
    let whole = div-mul-le_self max_int64 price in omega arith

no_overflow :
    (coins total : ℕ)
    → ltb (max_int64 - total) coins ≡ false
    → total ≤ max_int64
    → coins + total ≤ max_int64
no_overflow coins total h le = let room = ltb_false→le _ _ h in omega arith

-- A sale that is accepted is of an item with an enabled sell rule at its current price version.
-- What it sells is positive and is the quantity that was asked for or, if all was asked for, all
-- there is; exactly that leaves the item's stack and no other, the quantity times the unit price
-- is added to the coins without leaving the int64 range, the plots and stored results are kept,
-- the player's sequence number advances and the answer is a sale.
pub sell_crop-Sold :
    {B : Type 0} (config : ConfigSnapshot) (now_ms : ℕ) (sell : SellCropRequest)
    (request_id : List ℕ) (state : State B) {changed : State B} {payload : Payload}
    → sell_crop_decide config now_ms sell request_id state ≡ ok (changed, payload)
    → Sold config sell state changed payload
unfolding sell_crop_decide advance_versions
sell_crop-Sold config now_ms sell request_id state {changed} {payload} h =
    let current = read state.inventory sell.crop_item_id in
    let sold = sold_quantity sell.amount current in
    let (shape, h1) =
      passed_check state
        (sell.crop_item_id == 0
          || (sell.expected_price_version == 0 || not (valid_sell_amount sell.amount)))
        _ _ h in
    let (rule, found, h2) =
      found_value state (enabled_rule (sell_rule config sell.crop_item_id)) _ _ h1 in
    let (version, h3) =
      passed_check state (not (sell.expected_price_version == rule.price_version)) _ _ h2 in
    let (owned, h4) = passed_check state (sold == 0 || ltb current sold) _ _ h3 in
    let (product, h5) = passed_check state (ltb (max_int64 / rule.unit_price) sold) _ _ h4 in
    let (sum, h6) =
      passed_check state (ltb (max_int64 - sold * rule.unit_price) state.coins) _ _ h5 in
    let (same, told) = accepted _ refl h6 in
    let (listed, enabled) = enabled_rule-some (sell_rule config sell.crop_item_id) rule found in
    let (positive, left) = some_left sold current owned in
    record {
      rule = rule;
      sold = sold;
      listed = listed;
      enabled = enabled;
      price = same_number _ _ version;
      amount = requested sell.amount current positive;
      positive = positive;
      taken = rw (ap (λ s. s.inventory) same) (
          rw
            (read-put_remaining sell.crop_item_id sell.crop_item_id (current - sold)
              state.inventory)
            (put_back sell.crop_item_id sold current left));
      others = λ item_id other. rw (ap (λ s. s.inventory) same) (
          rw (read-put_remaining sell.crop_item_id item_id (current - sold) state.inventory)
            (rw other refl));
      paid = ap (λ s. s.coins) same;
      bounded =
          rw (ap (λ s. s.coins) same)
            (no_overflow _ _ sum (product_bound sold rule.unit_price product));
      plots = ap (λ s. s.plots) same;
      player_seq = ap (λ s. s.player_seq) same;
      results = ap (λ s. s.recent_results) same;
      answer = ap kind_of told;
    }
