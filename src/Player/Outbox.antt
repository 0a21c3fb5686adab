-- ===== src/Player/Outbox.antt =====
-- The events that a player's state holds until they are delivered (`PendingOutbox` of
-- server/internal/player/state.go), and the one for a reward that does not fit the inventory
-- (`buildRewardMailOutbox` of claim_reward.go).
use supernova_classic_farm.Base.{ℕ, List, [], ◌∷◌, ◌++◌}
use supernova_classic_farm.Base.Bytes.{big_endian64, uuid_of_hash}
use supernova_classic_farm.Wire.{ItemStackView}

-- datav1.PendingOutboxRecord; an encoded event is its bytes.
pub record PendingOutbox : Type 0 where
  pub event_id : List ℕ
  pub event_type : ℕ
  pub event_contract_version : ℕ
  pub aggregate_player_id : ℕ
  pub caused_by_request_id : List ℕ
  pub created_owner_epoch : ℕ
  pub created_player_seq : ℕ
  pub created_at_ms : ℕ
  pub payload : List ℕ
  pub payload_sha256 : List ℕ

-- eventv1.CreateRewardMailV1, less its two text keys, which are always the same.
pub record RewardMail : Type 0 where
  pub recipient_player_id : ℕ
  pub attachments : List ItemStackView
  pub chapter_id : ℕ
  pub chapter_config_version : ℕ
  pub request_id : List ℕ

-- "chapter-reward-mail:"
abbrev mail_prefix : List ℕ
mail_prefix =
    b'c' ∷ b'h' ∷ b'a' ∷ b'p' ∷ b't' ∷ b'e' ∷ b'r' ∷ b'-' ∷ b'r' ∷ b'e' ∷ b'w' ∷ b'a' ∷ b'r' ∷ b'd'
    ∷ b'-' ∷ b'm' ∷ b'a' ∷ b'i' ∷ b'l' ∷ b':' ∷ []

unfoldable pub reward_mail_event_id : (List ℕ → List ℕ) → ℕ → List ℕ → List ℕ
unfolding big_endian64
reward_mail_event_id sha256 player request_id =
    uuid_of_hash (sha256 (mail_prefix ++ (big_endian64 player ++ request_id)))
