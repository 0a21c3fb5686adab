-- ===== src/Command.antt =====
-- The commands of a player on its own farm. Each is a decision on the player's state, which
-- Idempotency.run wraps: it fails with an error to store and the state that it leaves
-- behind, or changes the state and answers.
pub mod BuySeeds
pub mod BuyFertilizer
pub mod ClaimReward
pub mod Plant
pub mod ApplyFertilizer
pub mod Harvest
pub mod CleanPlot
pub mod SellCrop
pub mod Accepted
pub mod Stock
pub mod Kept
pub mod Restoring
pub mod Sowing
pub mod Reaping
pub mod Trade
pub mod Farming
pub mod Fertilizing
pub mod Granting
pub mod Rewards
use supernova_classic_farm.Base.{
  ℕ, ◌-◌, Bool, true, false, Option, none, some, List, [], ◌∷◌, Result, ok, err, ◌==◌,
  if◌then◌else◌,
}
use supernova_classic_farm.Base.Map.{Map, insert, erase, read}
use supernova_classic_farm.Plot.{Plot}
use supernova_classic_farm.Player.Views.{plot_view}
use supernova_classic_farm.Wire.{ErrorCode, Failure, failure_of, PlayerStatePatch}

-- `if cond { return store…Failure(failure) }`, where `state` is the state at that point.
abbrev pub reject_if : {S : Type 0} → S → Bool → Failure → Result (S × Failure) (Unit {0})
reject_if state true failure = err (state, failure)
reject_if state false failure = ok tt

-- `if !exists { return store…Failure(failure) }`
abbrev pub require : {S A : Type 0} → S → Option A → Failure → Result (S × Failure) A
require state none failure = err (state, failure)
require state (some a) failure = ok a

-- Any error of a computation is answered by one failure.
abbrev pub otherwise : {S E A : Type 0} → S → Result E A → Failure → Result (S × Failure) A
otherwise state (err e) failure = err (state, failure)
otherwise state (ok a) failure = ok a

-- `&wsv1.Error{Code: CONFIG_UNAVAILABLE, Retryable: true}`
unfoldable pub config_unavailable : Failure
config_unavailable = record (failure_of ErrorCode.config_unavailable) { retryable = true }

-- `&wsv1.Error{Code: code, CurrentPlot: plot.View()}`
unfoldable pub failure_at : ErrorCode → Plot → Failure
failure_at error_code plot = record (failure_of error_code) { current_plot = some (plot_view plot) }

-- One item is used up: the last one is deleted from the map.
unfoldable pub consume_one : ℕ → Map ℕ → Map ℕ
consume_one item_id inventory =
    let quantity = read inventory item_id in
    if quantity == 1 then erase item_id inventory else insert item_id (quantity - 1) inventory

-- The patch that tells the client of the item used up; `quantity` is what there was.
unfoldable pub consumed_patch : ℕ → ℕ → PlayerStatePatch → PlayerStatePatch
consumed_patch item_id quantity patch =
    if quantity == 1
    then record patch { inventory_removed_item_ids = item_id ∷ [] }
    else record patch {
      inventory_upserts = record { item_id = item_id; quantity = quantity - 1 } ∷ [];
    }
