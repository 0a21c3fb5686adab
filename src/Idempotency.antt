-- ===== src/Idempotency.antt =====
-- What every command of server/internal/player does with a request ID: it parses it, replays a
-- stored result, refuses an ID that was used for another request, and stores what it decides.
-- The source repeats this in each command (see `buySeeds`, `storeBuySeedsFailure` and
-- `replayBuySeeds` of buy_seeds.go); here a command is its decision, and `run` is the rest.
-- Protobuf and SHA-256 are parameters: a Codec.
pub mod Replay
pub mod Retry
pub mod Rejection
use supernova_classic_farm.Base.{
  ℕ, ◌+◌, ◌-◌, ◌≡◌, Bool, true, false, not, ◌&&◌, ◌||◌, Option, none, some, List, [], ◌∷◌, ◌++◌,
  Result, ok, err, ◌==◌, leb, if◌then◌else◌, u64, length, drop,
}
use supernova_classic_farm.Base.Bytes.{
  bytes_equal, big_endian32, big_endian64, remove_dashes, hex_decode,
}
use supernova_classic_farm.Wire.{
  ErrorCode, Failure, failure_of, Payload, PayloadKind, kind_of, action_of, Request, Response,
}
use supernova_classic_farm.Player.{IdempotencyResult, State}
use supernova_classic_farm.Player.Outbox.{RewardMail, reward_mail_event_id}

-- Encoded messages, and the hash. `empty` is the nil byte slice, and `none` the error of encoding
-- a mail.
pub record Codec (B : Type 0) : Type 0 where
  pub empty : B
  pub marshal_payload : Payload → B
  pub unmarshal_payload : PayloadKind → B → Option Payload
  pub marshal_error : Failure → B
  pub unmarshal_error : B → Option Failure
  pub sha256 : List ℕ → List ℕ
  pub marshal_reward_mail : RewardMail → Option (List ℕ)

-- Protobuf decodes what it has encoded.
pub record CodecLaws {B : Type 0} (codec : Codec B) : Type 0 where
  pub payload_round :
      (payload : Payload)
      → codec.unmarshal_payload (kind_of payload) (codec.marshal_payload payload) ≡ some payload
  pub error_round :
      (failure : Failure) → codec.unmarshal_error (codec.marshal_error failure) ≡ some failure

-- `parseRequestID`; `none` is its error.
unfoldable pub parse_request_id : List ℕ → Option (List ℕ)
unfolding remove_dashes hex_decode
parse_request_id value =
    let compact = remove_dashes value in
    if not (length compact == 32) then none else hex_decode compact

abbrev pub fingerprint_schema_version : ℕ
fingerprint_schema_version = 1

abbrev pub max_recent_results : ℕ
max_recent_results = 100

-- The fields that every fingerprint hashes first.
unfoldable pub fingerprint_head : ℕ → Request → List ℕ
unfolding big_endian32 big_endian64
fingerprint_head caller request =
    big_endian32 fingerprint_schema_version
    ++ (big_endian32 request.protocol_version
        ++ (big_endian32 request.action
            ++ (big_endian64 caller ++ big_endian64 request.target_player_id)))

-- What the body of a command comes to: a failure with the state that it leaves behind, or the
-- changed state and the payload.
abbrev pub Decision : Type 0 → Type 0
Decision B = Result (State B × Failure) (State B × Payload)

-- What the search of the stored results comes to.
pub data Recall (B : Type 0) : Type 0 where
  fresh conflict : Recall B
  replay : IdempotencyResult B → Recall B

module _ {B : Type 0} where
  unfoldable pub retain : ℕ → List (IdempotencyResult B) → List (IdempotencyResult B)
  retain cutoff [] = []
  retain cutoff (existing ∷ results) =
      if leb cutoff existing.completed_at_ms
      then existing ∷ retain cutoff results
      else retain cutoff results

  -- `appendResult`: results older than a day are dropped, and the latest hundred are kept.
  unfoldable pub append_result :
      List (IdempotencyResult B) → IdempotencyResult B → ℕ → List (IdempotencyResult B)
  append_result results result now_ms =
      let kept = retain (now_ms - 86400000) results ++ result ∷ [] in
      drop (length kept - max_recent_results) kept

  unfoldable pub same_request : ℕ → List ℕ → IdempotencyResult B → Bool
  same_request caller request_id stored =
      stored.caller_player_id == caller && bytes_equal stored.request_id request_id

  unfoldable pub same_fingerprint : Request → List ℕ → IdempotencyResult B → Bool
  same_fingerprint request fingerprint stored =
      stored.fingerprint_schema_version == fingerprint_schema_version
      && (stored.protocol_version == request.protocol_version
          && (stored.action == request.action
              && (stored.target_player_id == request.target_player_id
                  && bytes_equal stored.payload_fingerprint_sha256 fingerprint)))

  -- The loop over `RecentResults`: the first entry with the caller and the request ID decides.
  unfoldable pub recall : ℕ → Request → List ℕ → List ℕ → List (IdempotencyResult B) → Recall B
  recall caller request request_id fingerprint [] = fresh
  recall caller request request_id fingerprint (stored ∷ results) =
      if not (same_request caller request_id stored)
      then recall caller request request_id fingerprint results
      else if not (same_fingerprint request fingerprint stored)
      then conflict
      else replay stored

  -- `errorEnvelope`
  unfoldable pub error_envelope : Request → State B → ℕ → Failure → Response
  error_envelope request state now_ms failure = record {
    protocol_version = 1;
    action = request.action;
    request_id = request.request_id;
    target_player_id = request.target_player_id;
    state_version = record { owner_epoch = state.owner_epoch; player_seq = state.player_seq };
    server_time_ms = now_ms;
    replayed = false;
    error = some failure;
    payload = none;
  }

  -- The envelope of an accepted command.
  unfoldable pub success_envelope : Request → State B → ℕ → Payload → Response
  success_envelope request state now_ms payload = record {
    protocol_version = 1;
    action = request.action;
    request_id = request.request_id;
    target_player_id = request.target_player_id;
    state_version = record { owner_epoch = state.owner_epoch; player_seq = state.player_seq };
    server_time_ms = now_ms;
    replayed = false;
    error = none;
    payload = some payload;
  }

  -- The envelope of a replay, for the decoded error or payload.
  unfoldable pub replay_envelope :
      Request → IdempotencyResult B → ℕ → Option Failure → Option Payload → Response
  replay_envelope request stored now_ms failure payload = record {
    protocol_version = 1;
    action = request.action;
    request_id = request.request_id;
    target_player_id = request.target_player_id;
    state_version = record {
      owner_epoch = stored.result_owner_epoch;
      player_seq = stored.result_player_seq;
    };
    server_time_ms = now_ms;
    replayed = true;
    error = failure;
    payload = payload;
  }

-- `result.OutboxIds` of claim_reward.go: the event of a reward that is partly mailed.
unfoldable pub outbox_ids_of : (List ℕ → List ℕ) → ℕ → List ℕ → Payload → List (List ℕ)
unfolding reward_mail_event_id
outbox_ids_of sha256 caller request_id (Payload.claim_chapter_reward_response claim) =
    if length claim.items_pending_mail == 0
    then []
    else reward_mail_event_id sha256 caller request_id ∷ []
outbox_ids_of sha256 caller request_id _ = []

module _ {B : Type 0} (codec : Codec B) (kind : PayloadKind) where
  -- `replayBuySeeds` and its copies.
  unfoldable pub replay_result : Request → IdempotencyResult B → ℕ → Response
  replay_result request stored now_ms =
      if stored.success
      then (elim (codec.unmarshal_payload kind stored.response_payload) [
        | some payload ↦ replay_envelope request stored now_ms none (some payload)
        | none ↦
            replay_envelope request stored now_ms
              (some (failure_of ErrorCode.request_outcome_unknown)) none
      ])
      else (elim (codec.unmarshal_error stored.error_payload) [
        | some failure ↦ replay_envelope request stored now_ms (some failure) none
        | none ↦
            replay_envelope request stored now_ms
              (some (failure_of ErrorCode.request_outcome_unknown)) none
      ])

  unfoldable pub failure_record :
      State B → Request → List ℕ → List ℕ → ℕ → Failure → IdempotencyResult B
  failure_record state request request_id fingerprint now_ms failure = record {
    caller_player_id = request.target_player_id;
    request_id = request_id;
    fingerprint_schema_version = fingerprint_schema_version;
    protocol_version = request.protocol_version;
    action = request.action;
    target_player_id = request.target_player_id;
    payload_fingerprint_sha256 = fingerprint;
    completed_at_ms = now_ms;
    success = false;
    result_owner_epoch = state.owner_epoch;
    result_player_seq = state.player_seq;
    response_payload_type = action_of kind;
    response_payload = codec.empty;
    outbox_ids = [];
    error_payload = codec.marshal_error failure;
  }

  unfoldable pub success_record :
      State B → ℕ → Request → List ℕ → List ℕ → ℕ → Payload → IdempotencyResult B
  success_record state caller request request_id fingerprint now_ms payload = record {
    caller_player_id = caller;
    request_id = request_id;
    fingerprint_schema_version = fingerprint_schema_version;
    protocol_version = request.protocol_version;
    action = request.action;
    target_player_id = request.target_player_id;
    payload_fingerprint_sha256 = fingerprint;
    completed_at_ms = now_ms;
    success = true;
    result_owner_epoch = state.owner_epoch;
    result_player_seq = state.player_seq;
    response_payload_type = action_of kind;
    response_payload = codec.marshal_payload payload;
    outbox_ids = outbox_ids_of codec.sha256 caller request_id payload;
    error_payload = codec.empty;
  }

  -- `storeBuySeedsFailure` and its copies. The failure is stored under the target player.
  unfoldable pub store_failure :
      State B → Request → List ℕ → List ℕ → ℕ → ℕ → Failure → State B × Response
  store_failure state request request_id fingerprint version now_ms failure = (
    record state {
      checkpoint_revision = u64 (state.checkpoint_revision + 1);
      config_version = version;
      updated_at_ms = now_ms;
      recent_results =
          append_result state.recent_results
            (failure_record state request request_id fingerprint now_ms failure) now_ms;
    },
    error_envelope request state now_ms failure,
  )

  -- The end of an accepted command, for the state that it has changed.
  unfoldable pub store_success :
      State B → ℕ → Request → List ℕ → List ℕ → ℕ → Payload → State B × Response
  store_success state caller request request_id fingerprint now_ms payload = (
    record state {
      recent_results =
          append_result state.recent_results
            (success_record state caller request request_id fingerprint now_ms payload) now_ms;
    },
    success_envelope request state now_ms payload,
  )

  -- The end of a command: the failure or the success is stored.
  unfoldable pub finish :
      State B → ℕ → Request → List ℕ → List ℕ → ℕ → ℕ → Decision B → State B × Response
  finish state caller request request_id fingerprint version now_ms (err (left, failure)) =
      store_failure left request request_id fingerprint version now_ms failure
  finish state caller request request_id fingerprint version now_ms (ok (changed, payload)) =
      store_success changed caller request request_id fingerprint now_ms payload

  -- A whole command: the new state, the response and whether the state has changed.
  unfoldable pub run :
      (List ℕ → State B → Decision B)
      → State B
      → ℕ
      → Request
      → List ℕ
      → ℕ
      → ℕ
      → State B × Response × Bool
  run decide state caller request fingerprint version now_ms =
      elim (parse_request_id request.request_id) [
        | none ↦ (
          state,
          error_envelope request state now_ms (failure_of ErrorCode.invalid_argument),
          false,
        )
        | some request_id ↦
            (elim (recall caller request request_id fingerprint state.recent_results) [
              | fresh ↦
                  (let (after, response) =
                      finish state caller request request_id fingerprint version now_ms
                        (decide request_id state) in
                    (after, response, true))
              | conflict ↦ (
                state,
                error_envelope request state now_ms (failure_of ErrorCode.request_id_conflict),
                false,
              )
              | replay stored ↦ (state, replay_result request stored now_ms, false)
            ])
      ]
