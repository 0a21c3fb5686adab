-- ===== src/Command/ClaimReward.antt =====
-- `claimChapterReward` of server/internal/player/claim_reward.go.
use supernova_classic_farm.Base.{
  ℕ, ◌+◌, ◌-◌, Bool, true, false, not, ◌||◌, Option, none, some, List, [], ◌∷◌, ◌++◌, map, ok,
  ◌>>=◌, ◌>>◌, ◌==◌, ltb, if◌then◌else◌, length, u32, u64, max_int64,
}
use supernova_classic_farm.Base.Bytes.{big_endian32}
use supernova_classic_farm.Base.Map.{Map, insert, read}
use supernova_classic_farm.Wire.{
  ChapterStatus, ErrorCode, failure_of, empty_patch, ItemStackView, Payload, PayloadKind, Request,
  Response,
}
use supernova_classic_farm.Config.{RewardItem, ChapterConfig, ConfigSnapshot, chapter_config}
use supernova_classic_farm.Player.{State, all_tasks_complete, advance_versions}
use supernova_classic_farm.Player.Outbox.{PendingOutbox, RewardMail, reward_mail_event_id}
use supernova_classic_farm.Player.Views.{current_chapter}
use supernova_classic_farm.Idempotency.{Decision, Codec, fingerprint_head, run}
use supernova_classic_farm.Command.{reject_if, require, config_unavailable}
use supernova_classic_farm.Command.Harvest.{inventory_stack_limit, inventory_type_limit}

-- The bytes that `claimRewardFingerprint` hashes.
unfoldable pub claim_reward_fingerprint : ℕ → Request → ℕ → List ℕ
claim_reward_fingerprint caller request chapter_id =
    fingerprint_head caller request ++ big_endian32 chapter_id

-- The inventory after the items of a reward that were added, these items, and the others.
pub record Granted : Type 0 where
  pub inventory : Map ℕ
  pub items_added : List ItemStackView
  pub items_pending : List ItemStackView

-- How much of an item still fits; the difference is a uint32.
unfoldable pub capacity_for : Map ℕ → ℕ → ℕ
capacity_for inventory item_id =
    let current = read inventory item_id in
    if ltb 0 current
    then u32 (inventory_stack_limit + 4294967296 - current)
    else if ltb (length inventory) inventory_type_limit
    then inventory_stack_limit
    else 0

unfoldable pub added_quantity : Map ℕ → RewardItem → ℕ
unfolding capacity_for
added_quantity inventory reward =
    let capacity = capacity_for inventory reward.item_id in
    if ltb capacity reward.quantity then capacity else reward.quantity

-- `if quantity > 0 { stacks = append(stacks, …) }` in front of what follows.
abbrev pub stack_before : ℕ → ℕ → List ItemStackView → List ItemStackView
stack_before item_id quantity stacks =
    if ltb 0 quantity then record { item_id = item_id; quantity = quantity } ∷ stacks else stacks

unfoldable pub stock_reward : Map ℕ → RewardItem → ℕ → Map ℕ
stock_reward inventory reward added =
    if ltb 0 added
    then insert reward.item_id (u32 (read inventory reward.item_id + added)) inventory
    else inventory

-- The loop over the items of a reward.
unfoldable pub grant_items : List RewardItem → Map ℕ → Granted
unfolding added_quantity stock_reward
grant_items [] inventory = record { inventory = inventory; items_added = []; items_pending = [] }
grant_items (reward ∷ rewards) inventory =
    let added = added_quantity inventory reward in
    let rest = grant_items rewards (stock_reward inventory reward added) in
    record {
      inventory = rest.inventory;
      items_added = stack_before reward.item_id added rest.items_added;
      items_pending = stack_before reward.item_id (reward.quantity - added) rest.items_pending;
    }

abbrev pub max_mail_size : ℕ
max_mail_size = 49152

-- eventv1's CREATE_REWARD_MAIL
abbrev create_reward_mail : ℕ
create_reward_mail = 1

unfoldable pub build_reward_mail_outbox :
    (List ℕ → List ℕ)
    → (RewardMail → Option (List ℕ))
    → ℕ
    → List ℕ
    → ChapterConfig
    → List ItemStackView
    → ℕ
    → ℕ
    → ℕ
    → Option PendingOutbox
unfolding reward_mail_event_id
build_reward_mail_outbox sha256 marshal player request_id chapter pending owner_epoch player_seq
      now_ms =
    elim (marshal (record {
      recipient_player_id = player;
      attachments = pending;
      chapter_id = chapter.chapter_id;
      chapter_config_version = chapter.config_version;
      request_id = request_id;
    })) [
      | none ↦ none
      | some body ↦
          if ltb max_mail_size (length body)
          then none
          else some (record {
            event_id = reward_mail_event_id sha256 player request_id;
            event_type = create_reward_mail;
            event_contract_version = 1;
            aggregate_player_id = player;
            caused_by_request_id = request_id;
            created_owner_epoch = owner_epoch;
            created_player_seq = player_seq;
            created_at_ms = now_ms;
            payload = body;
            payload_sha256 = sha256 body;
          })
    ]

abbrev pub is_claimed : ChapterStatus → Bool
is_claimed ChapterStatus.claimed = true
is_claimed _ = false

abbrev pub is_claimable : ChapterStatus → Bool
is_claimable ChapterStatus.claimable = true
is_claimable _ = false

-- The chapter of the state's own version.
unfoldable pub current_config : Option ChapterConfig → ℕ → Option ChapterConfig
current_config none version = none
current_config (some chapter) version =
    if chapter.config_version == version then some chapter else none

-- The chapter that follows: `none` is a missing configuration, `some none` the end.
unfoldable pub following_chapter : ConfigSnapshot → ChapterConfig → Option (Option ChapterConfig)
following_chapter config chapter =
    if chapter.next_chapter_id == 0
    then some none
    else (elim (chapter_config config chapter.next_chapter_id) [
      | none ↦ none
      | some next ↦ some (some next)
    ])

-- The records to append: at most the mail with what does not fit.
unfoldable pub reward_outbox :
    (List ℕ → List ℕ)
    → (RewardMail → Option (List ℕ))
    → ℕ
    → List ℕ
    → ChapterConfig
    → List ItemStackView
    → ℕ
    → ℕ
    → ℕ
    → Option (List PendingOutbox)
unfolding build_reward_mail_outbox
reward_outbox sha256 marshal player request_id chapter [] owner_epoch player_seq now_ms = some []
reward_outbox sha256 marshal player request_id chapter (item ∷ pending) owner_epoch player_seq
      now_ms =
    elim (build_reward_mail_outbox sha256 marshal player request_id chapter (item ∷ pending)
      owner_epoch player_seq now_ms) [ none ↦ none | some mail ↦ some (mail ∷ []) ]

module _ {B : Type 0} where
  unfoldable pub chapter_moved_on : State B → Option ChapterConfig → ℕ → State B
  chapter_moved_on state none now_ms = record state { chapter = ChapterStatus.claimed }
  chapter_moved_on state (some next) now_ms = record state {
    chapter_id = next.chapter_id;
    chapter_config_version = next.config_version;
    chapter = ChapterStatus.in_progress;
    chapter_activated_at_ms = now_ms;
    tasks = next.tasks;
  }

  -- The state after the reward, before its versions advance.
  unfoldable pub rewarded :
      State B → ChapterConfig → Option ChapterConfig → Granted → List PendingOutbox → ℕ → State B
  unfolding chapter_moved_on
  rewarded state chapter next granted mails now_ms = record (chapter_moved_on state next now_ms) {
    coins = state.coins + chapter.reward_coins;
    inventory = granted.inventory;
    pending_outbox = state.pending_outbox ++ mails;
  }

  abbrev pub claim_response : ℕ → ChapterConfig → Granted → State B → Payload
  claim_response chapter_id chapter granted changed =
      Payload.claim_chapter_reward_response (record {
        chapter_id = chapter_id;
        coin_granted = chapter.reward_coins;
        items_added_to_inventory = granted.items_added;
        items_pending_mail = granted.items_pending;
        patch = record empty_patch {
          coin_balance = some changed.coins;
          current_chapter = some (current_chapter changed);
          inventory_upserts =
              map
                (λ added. record {
                  item_id = added.item_id;
                  quantity = read changed.inventory added.item_id;
                })
                granted.items_added;
        };
      })

  -- The part of the decision after its checks of the chapter. `Coins > math.MaxInt64-RewardCoins`
  -- is tested on the sum, since both are int64 values from 0 on.
  unfoldable pub grant_reward :
      (List ℕ → List ℕ)
      → (RewardMail → Option (List ℕ))
      → ℕ
      → ConfigSnapshot
      → ℕ
      → ChapterConfig
      → Option ChapterConfig
      → List ℕ
      → State B
      → Decision B
  unfolding grant_items reward_outbox rewarded
  grant_reward sha256 marshal caller config now_ms chapter next request_id state = do
    reject_if state (ltb max_int64 (state.coins + chapter.reward_coins)) config_unavailable
    let granted = grant_items chapter.reward_items state.inventory
    mails ←
        require state
          (reward_outbox sha256 marshal caller request_id chapter granted.items_pending
            state.owner_epoch (u64 (state.player_seq + 1)) now_ms)
          config_unavailable
    let changed =
        advance_versions (rewarded state chapter next granted mails now_ms) config.version now_ms
    ok (changed, claim_response state.chapter_id chapter granted changed)

  unfoldable pub claim_reward_decide :
      (List ℕ → List ℕ)
      → (RewardMail → Option (List ℕ))
      → ℕ
      → ConfigSnapshot
      → ℕ
      → ℕ
      → List ℕ
      → State B
      → Decision B
  unfolding grant_reward
  claim_reward_decide sha256 marshal caller config now_ms chapter_id request_id state = do
    reject_if state (chapter_id == 0) (failure_of ErrorCode.invalid_argument)
    reject_if state (not (chapter_id == state.chapter_id)) (failure_of ErrorCode.chapter_not_found)
    reject_if state (is_claimed state.chapter) (failure_of ErrorCode.chapter_reward_already_claimed)
    reject_if state (not (is_claimable state.chapter) || not (all_tasks_complete state.tasks))
        (failure_of ErrorCode.chapter_not_claimable)
    chapter ←
        require state
          (current_config (chapter_config config state.chapter_id) state.chapter_config_version)
          config_unavailable
    next ← require state (following_chapter config chapter) config_unavailable
    grant_reward sha256 marshal caller config now_ms chapter next request_id state

  unfoldable pub claim_reward :
      Codec B → State B → ℕ → Request → ℕ → ConfigSnapshot → ℕ → State B × Response × Bool
  claim_reward codec state caller request chapter_id config now_ms =
      run codec PayloadKind.claim_chapter_reward
        (claim_reward_decide codec.sha256 codec.marshal_reward_mail caller config now_ms chapter_id)
        state caller request (codec.sha256 (claim_reward_fingerprint caller request chapter_id))
        config.version now_ms
