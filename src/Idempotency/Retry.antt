-- ===== src/Idempotency/Retry.antt =====
-- Exactly once: a command that is sent again with its request ID, with no other command in
-- between, is not executed again (server/internal/player, the idempotency results).
use supernova_classic_farm.Base.{
  ℕ, ◌≡◌, refl, ◌⊎◌, inl, inr, true, some, List, ok, Option-cases, Result-cases, arith,
}
use supernova_classic_farm.Wire.{ErrorCode, Failure, failure_of, Payload, PayloadKind, Request}
use supernova_classic_farm.Player.{IdempotencyResult, State}
use supernova_classic_farm.Idempotency.{
  Codec, Decision, CodecLaws, parse_request_id, Recall, fresh, conflict, replay, recall,
  error_envelope, success_envelope, replay_envelope, replay_result, failure_record, success_record,
  store_failure, store_success, finish, run,
}
use supernova_classic_farm.Idempotency.Replay.{
  IsCommand, SameAnswer, Retried, recall-append_result, run_replay, run_fresh, run_invalid,
  run_conflict, replay_success, replay_failure, replays, same_request_self, same_fingerprint_self,
}

pub Recall-cases :
    {B : Type 0} (r : Recall B)
    → (r ≡ fresh) ⊎ ((r ≡ conflict) ⊎ ((stored : IdempotencyResult B) × (r ≡ replay stored)))
Recall-cases fresh = inl refl
Recall-cases conflict = inr (inl refl)
Recall-cases (replay stored) = inr (inr (stored, refl))

module _ {B : Type 0} (codec : Codec B) (laws : CodecLaws codec) (kind : PayloadKind)
    (decide decide2 : List ℕ → State B → Decision B) (command : IsCommand kind decide)
    (state : State B) (caller : ℕ) (request : Request) (fingerprint : List ℕ)
    (version1 now1 version2 now2 : ℕ) (own : request.target_player_id ≡ caller) where
  stored_success :
      (request_id : List ℕ) (changed : State B) (payload : Payload)
      → parse_request_id request.request_id ≡ some request_id
      → recall caller request request_id fingerprint state.recent_results ≡ fresh
      → decide request_id state ≡ ok (changed, payload)
      → (let (s1, r1) =
            store_success codec kind changed caller request request_id fingerprint now1 payload in
          Retried codec kind decide2 (s1, r1, true) caller request fingerprint version2 now2)
  unfolding store_success success_record replay_envelope success_envelope
  stored_success request_id changed payload p r d =
      let stored =
        success_record codec kind changed caller request request_id fingerprint now1 payload in
      replays codec kind decide2 _ _ caller request fingerprint version2 now2 p
        (recall-append_result caller request request_id fingerprint changed.recent_results stored
          now1 (rw (command.keeps_results request_id state d) r)
          (same_request_self codec kind decide caller request_id stored refl refl)
          (same_fingerprint_self codec kind decide request fingerprint stored refl refl refl refl
            refl))
        (rw
          (replay_success codec kind decide laws request stored now2 payload
            (command.answers request_id state d) refl refl)
          (record { error = refl; payload = refl; state_version = refl }))

  stored_failure :
      (request_id : List ℕ) (failure : Failure)
      → parse_request_id request.request_id ≡ some request_id
      → recall caller request request_id fingerprint state.recent_results ≡ fresh
      → (let (s1, r1) =
            store_failure codec kind state request request_id fingerprint version1 now1 failure in
          Retried codec kind decide2 (s1, r1, true) caller request fingerprint version2 now2)
  unfolding store_failure failure_record replay_envelope error_envelope
  stored_failure request_id failure p r =
      let stored = failure_record codec kind state request request_id fingerprint now1 failure in
      replays codec kind decide2 _ _ caller request fingerprint version2 now2 p
        (recall-append_result caller request request_id fingerprint state.recent_results stored now1
          r (same_request_self codec kind decide caller request_id stored own refl)
          (same_fingerprint_self codec kind decide request fingerprint stored refl refl refl refl
            refl))
        (rw (replay_failure codec kind decide laws request stored now2 failure refl refl)
          (record { error = refl; payload = refl; state_version = refl }))

  -- An error that stores nothing is answered again.
  same_error :
      (failure : Failure)
      → SameAnswer
          (error_envelope request state now1 failure)
          (error_envelope request state now2 failure)
  unfolding error_envelope
  same_error failure = record { error = refl; payload = refl; state_version = refl }

  same_replay :
      (stored : IdempotencyResult B)
      → SameAnswer
          (replay_result codec kind request stored now1)
          (replay_result codec kind request stored now2)
  unfolding replay_result replay_envelope
  same_replay stored = record {
    error = ground arith;
    payload = ground arith;
    state_version = ground arith;
  }

  finished :
      (request_id : List ℕ)
      → parse_request_id request.request_id ≡ some request_id
      → recall caller request request_id fingerprint state.recent_results ≡ fresh
      → (let (s1, r1) =
            finish codec kind state caller request request_id fingerprint version1 now1
              (decide request_id state) in
          Retried codec kind decide2 (s1, r1, true) caller request fingerprint version2 now2)
  unfolding finish
  finished request_id p r = elim (Result-cases (decide request_id state)) [
    | inl ((changed, payload), d) ↦ rw (d, finish) (stored_success request_id changed payload p r d)
    | inr ((left, failure), d) ↦
        (let same : left ≡ state = (command.restores request_id state).left_alone left failure d in
          rw (d, finish, same) (stored_failure request_id failure p r))
  ]

  -- A command of the player itself is run twice in a row with the same request, at any times and
  -- under any configurations, which the second decision may see differently. The second run changes nothing, and it answers with the error or
  -- payload and the state version of the first, whether the first was accepted, was rejected, met
  -- a malformed or reused request ID or was itself a replay.
  pub run_retry :
      Retried codec kind decide2
        (run codec kind decide state caller request fingerprint version1 now1)
        caller
        request
        fingerprint
        version2
        now2
  run_retry = elim (Option-cases (parse_request_id request.request_id)) [
    | inl p ↦ rw (run_invalid codec kind decide state caller request fingerprint version1 now1 p) (
        rw (run_invalid codec kind decide2 state caller request fingerprint version2 now2 p)
          (refl, refl, same_error (failure_of ErrorCode.invalid_argument)))
    | inr (request_id, p) ↦
        elim (Recall-cases (recall caller request request_id fingerprint state.recent_results)) [
          | inl r ↦
              rw (run_fresh codec kind decide state caller request fingerprint version1 now1 p r)
                (finished request_id p r)
          | inr (inl r) ↦
              rw (run_conflict codec kind decide state caller request fingerprint version1 now1 p r)
                (rw
                  (run_conflict codec kind decide2 state caller request fingerprint version2 now2 p
                    r)
                  (refl, refl, same_error (failure_of ErrorCode.request_id_conflict)))
          | inr (inr (stored, r)) ↦
              rw (run_replay codec kind decide state caller request fingerprint version1 now1 p r) (
                rw
                  (run_replay codec kind decide2 state caller request fingerprint version2 now2 p r)
                  (refl, refl, same_replay stored))
        ]
  ]
