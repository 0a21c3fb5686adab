-- ===== src/Command/Stock.antt =====
-- The quantities of items after the commands of server/internal/player add to a stack, take from
-- it or use up one item.
use supernova_classic_farm.Base.{ℕ, ◌+◌, ◌-◌, ◌≤◌, ◌≡◌, false, arith, ◌==◌, ltb, if◌then◌else◌, u32}
use supernova_classic_farm.Base.Map.{Map, insert, read, read-insert, read-erase}
use supernova_classic_farm.Command.{consume_one}
use supernova_classic_farm.Command.SellCrop.{put_remaining}

-- What a map holds after `quantity` more of an item that still fits.
pub restocked :
    (inventory : Map ℕ) (item_id other quantity : ℕ)
    → ltb 300 (read inventory item_id + quantity) ≡ false
    → read (insert item_id (u32 (read inventory item_id + quantity)) inventory) other
      ≡ (if item_id == other then read inventory other + quantity else read inventory other)
restocked inventory item_id other quantity h =
    rw (read-insert item_id other (u32 (read inventory item_id + quantity)) inventory)
      (ground arith)

pub stack_bound :
    (inventory : Map ℕ) (item_id quantity : ℕ)
    → ltb 300 (read inventory item_id + quantity) ≡ false
    → read (insert item_id (u32 (read inventory item_id + quantity)) inventory) item_id ≤ 300
stack_bound inventory item_id quantity h =
    rw (restocked inventory item_id item_id quantity h) (ground arith)

pub read-put_remaining :
    (item_id other remaining : ℕ) (inventory : Map ℕ)
    → read (put_remaining item_id remaining inventory) other
      ≡ (if item_id == other then remaining else read inventory other)
unfolding put_remaining
read-put_remaining item_id other remaining inventory =
    ground
      (arith, read-insert item_id other remaining inventory, read-erase item_id other inventory)

pub consume_one-read :
    (item_id other : ℕ) (inventory : Map ℕ)
    → (read inventory item_id == 0) ≡ false
    → read inventory other
      ≡ (if item_id == other then 1 else 0) + read (consume_one item_id inventory) other
unfolding consume_one
consume_one-read item_id other inventory owned = ground (
  arith,
  read-insert item_id other (read inventory item_id - 1) inventory,
  read-erase item_id other inventory,
)
