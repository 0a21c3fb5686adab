-- ===== src/Command/Granting.antt =====
-- The items of a chapter's reward: what is added to the inventory and what stays pending add up to
-- the reward (the loop of `claimChapterReward`, server/internal/player/claim_reward.go).
use supernova_classic_farm.Base.{
  ℕ, ◌+◌, ◌-◌, ◌≤◌, ◌≡◌, refl, Bool, true, false, List, [], ◌∷◌, arith, ◌==◌, if◌then◌else◌, u32,
  Bool-cases, inl, inr,
}
use supernova_classic_farm.Base.Map.{Map, read, read-insert}
use supernova_classic_farm.Wire.{ItemStackView}
use supernova_classic_farm.Config.{RewardItem}
use supernova_classic_farm.Command.Harvest.{inventory_stack_limit}
use supernova_classic_farm.Command.ClaimReward.{
  Granted, capacity_for, added_quantity, stack_before, stock_reward, grant_items,
}

-- How much of an item a list of stacks or of rewards holds.
abbrev pub quantity_in : ℕ → List ItemStackView → ℕ
quantity_in item_id [] = 0
quantity_in item_id (stack ∷ stacks) =
    (if stack.item_id == item_id then stack.quantity else 0) + quantity_in item_id stacks

abbrev pub rewarded_of : ℕ → List RewardItem → ℕ
rewarded_of item_id [] = 0
rewarded_of item_id (reward ∷ rewards) =
    (if reward.item_id == item_id then reward.quantity else 0) + rewarded_of item_id rewards

abbrev pub IsBounded : Map ℕ → Type 0
IsBounded inventory = (item_id : ℕ) → read inventory item_id ≤ inventory_stack_limit

added_fits :
    (inventory : Map ℕ) (reward : RewardItem)
    → read inventory reward.item_id ≤ inventory_stack_limit
    → (read inventory reward.item_id + added_quantity inventory reward ≤ inventory_stack_limit)
      × (added_quantity inventory reward ≤ reward.quantity)
unfolding added_quantity capacity_for
added_fits inventory reward h = (ground arith, ground arith)

stock_reward-read :
    (inventory : Map ℕ) (reward : RewardItem) (added item_id : ℕ)
    → read inventory reward.item_id + added ≤ inventory_stack_limit
    → read (stock_reward inventory reward added) item_id
      ≡ read inventory item_id + (if reward.item_id == item_id then added else 0)
unfolding stock_reward
stock_reward-read inventory reward added item_id h = ground (
  arith,
  read-insert reward.item_id item_id (u32 (read inventory reward.item_id + added)) inventory,
)

stack_before-quantity :
    (item_id quantity other : ℕ) (stacks : List ItemStackView)
    → quantity_in other (stack_before item_id quantity stacks)
      ≡ (if item_id == other then quantity else 0) + quantity_in other stacks
stack_before-quantity item_id quantity other stacks = ground arith

stock_reward-IsBounded :
    (inventory : Map ℕ) (reward : RewardItem)
    → IsBounded inventory
    → IsBounded (stock_reward inventory reward (added_quantity inventory reward))
stock_reward-IsBounded inventory reward h item_id =
    let added = added_quantity inventory reward in
    let (fits, _) = added_fits inventory reward (h reward.item_id) in
    let put = stock_reward-read inventory reward added item_id fits in
    elim (Bool-cases (reward.item_id == item_id)) [
      | inl e ↦
          (let same : reward.item_id ≡ item_id = ground arith in
            let top : read inventory item_id + added ≤ inventory_stack_limit = rw (← same) fits in
            let put' = (rw e at put) in omega arith)
      | inr e ↦ (let below = h item_id in let put' = (rw e at put) in omega arith)
    ]

-- One item of a reward in front of the others: what was added, and what stays pending.
conserved_step :
    (after stocked before pending others rest added quantity : ℕ) (b : Bool)
    → added ≤ quantity
    → stocked ≡ before + (if b then added else 0)
    → pending ≡ (if b then quantity - added else 0) + others
    → after + others ≡ stocked + rest
    → after + pending ≡ before + ((if b then quantity else 0) + rest)
conserved_step after stocked before pending others rest added quantity true le p q c = omega arith
conserved_step after stocked before pending others rest added quantity false le p q c = omega arith

told_step :
    (after stocked before upserts others added : ℕ) (b : Bool)
    → stocked ≡ before + (if b then added else 0)
    → upserts ≡ (if b then added else 0) + others
    → after ≡ stocked + others
    → after ≡ before + upserts
told_step after stocked before upserts others added true p q c = omega arith
told_step after stocked before upserts others added false p q c = omega arith

-- What the loop over the items of a reward leaves.
pub record IsGranted (rewards : List RewardItem) (inventory : Map ℕ) (granted : Granted)
    : Type 0 where
  pub conserved :
      (item_id : ℕ)
      → read granted.inventory item_id + quantity_in item_id granted.items_pending
        ≡ read inventory item_id + rewarded_of item_id rewards
  pub told :
      (item_id : ℕ)
      → read granted.inventory item_id
        ≡ read inventory item_id + quantity_in item_id granted.items_added
  pub bounded : IsBounded granted.inventory

pub grant_items-IsGranted :
    (rewards : List RewardItem) (inventory : Map ℕ)
    → IsBounded inventory
    → IsGranted rewards inventory (grant_items rewards inventory)
unfolding grant_items
grant_items-IsGranted [] inventory h = record {
  conserved = λ item_id. refl;
  told = λ item_id. omega arith;
  bounded = h;
}
grant_items-IsGranted (reward ∷ rewards) inventory h =
    let added = added_quantity inventory reward in
    let stocked = stock_reward inventory reward added in
    let (fits, part) = added_fits inventory reward (h reward.item_id) in
    let put = λ (item_id : ℕ). stock_reward-read inventory reward added item_id fits in
    let rest = grant_items-IsGranted rewards stocked (stock_reward-IsBounded inventory reward h) in
    record {
      conserved = λ item_id.
          (let p = put item_id in
            let c = rest.conserved item_id in
            let q =
              stack_before-quantity reward.item_id (reward.quantity - added) item_id
                (grant_items rewards stocked).items_pending in
            conserved_step _ _ _ _ _ _ _ _ (reward.item_id == item_id) part p q c);
      told = λ item_id.
          (let p = put item_id in
            let c = rest.told item_id in
            let q =
              stack_before-quantity reward.item_id added item_id
                (grant_items rewards stocked).items_added in
            told_step _ _ _ _ _ _ (reward.item_id == item_id) p q c);
      bounded = rest.bounded;
    }
