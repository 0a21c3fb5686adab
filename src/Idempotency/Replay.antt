-- ===== src/Idempotency/Replay.antt =====
-- A retried command (server/internal/player, the idempotency results): the result that was stored
-- is found again, and the retry answers with it and changes nothing.
use supernova_classic_farm.Base.{
  ℕ, zero, suc, ◌-◌, ◌≤◌, ◌≡◌, refl, inl, inr, Bool, true, false, none, some, List, [], ◌∷◌, ◌++◌,
  Result, ok, err, arith, leb, length, drop, Bool-cases, length-append, All,
}
use supernova_classic_farm.Base.Bytes.{bytes_equal_refl}
use supernova_classic_farm.Wire.{
  ErrorCode, Failure, failure_of, Payload, PayloadKind, kind_of, Request, Response,
}
use supernova_classic_farm.Player.{IdempotencyResult, State}
use supernova_classic_farm.Idempotency.{
  Codec, Decision, CodecLaws, parse_request_id, fingerprint_schema_version, retain, append_result,
  fresh, conflict, replay, same_request, same_fingerprint, recall, error_envelope, replay_envelope,
  replay_result, finish, run,
}

module _ {B : Type 0} (caller : ℕ) (request : Request) (request_id fingerprint : List ℕ) where
  -- No stored result carries the caller and the request ID.
  abbrev pub IsUnused : List (IdempotencyResult B) → Type 0
  IsUnused = All (λ stored. same_request caller request_id stored ≡ false)

  recall-fresh :
      (results : List (IdempotencyResult B))
      → recall caller request request_id fingerprint results ≡ fresh
      → IsUnused results
  unfolding recall
  recall-fresh [] h = tt
  recall-fresh (stored ∷ results) h = elim (Bool-cases (same_request caller request_id stored)) [
    | inr e ↦ (e, recall-fresh results (rw e at h))
    | inl e ↦ absurd (found e h)
  ]
    where
      found :
          same_request caller request_id stored ≡ true
          → recall caller request request_id fingerprint (stored ∷ results) ≡ fresh
          → ⊥
      found e q = elim (Bool-cases (same_fingerprint request fingerprint stored)) [
        | inl f ↦ (let q' = (rw (e, f) at q) in cc)
        | inr f ↦ (let q' = (rw (e, f) at q) in cc)
      ]

  retain-IsUnused :
      (cutoff : ℕ) (results : List (IdempotencyResult B))
      → IsUnused results
      → IsUnused (retain cutoff results)
  unfolding retain
  retain-IsUnused cutoff [] h = tt
  retain-IsUnused cutoff (stored ∷ results) h =
      elim (Bool-cases (leb cutoff stored.completed_at_ms)) [
        | inl e ↦ rw e (h.0, retain-IsUnused cutoff results h.1)
        | inr e ↦ rw e (retain-IsUnused cutoff results h.1)
      ]

  -- The latest result is found behind any unused ones that are left.
  recall_latest :
      (n : ℕ) (results : List (IdempotencyResult B)) (result : IdempotencyResult B)
      → n ≤ length results
      → IsUnused results
      → same_request caller request_id result ≡ true
      → same_fingerprint request fingerprint result ≡ true
      → recall caller request request_id fingerprint (drop n (results ++ result ∷ []))
        ≡ replay result
  unfolding recall
  recall_latest zero [] result le h e f = rw (e, f) refl
  recall_latest (suc n) [] result le h e f = absurd (omega arith)
  recall_latest zero (stored ∷ results) result le h e f =
      rw (h.0) (recall_latest zero results result (omega arith) h.1 e f)
  recall_latest (suc n) (stored ∷ results) result le h e f =
      recall_latest n results result (omega arith) h.1 e f

  -- A result that is stored under an unused request ID is what the next search finds.
  pub recall-append_result :
      (results : List (IdempotencyResult B)) (result : IdempotencyResult B) (now_ms : ℕ)
      → recall caller request request_id fingerprint results ≡ fresh
      → same_request caller request_id result ≡ true
      → same_fingerprint request fingerprint result ≡ true
      → recall caller request request_id fingerprint (append_result results result now_ms)
        ≡ replay result
  unfolding append_result
  recall-append_result results result now_ms h e f =
      recall_latest _ (retain (now_ms - 86400000) results) result
        (omega (arith, length-append (retain (now_ms - 86400000) results) (result ∷ [])))
        (retain-IsUnused _ results (recall-fresh results h)) e f

-- A failure leaves the state as it was.
pub record Leaves {B A : Type 0} (state : State B) (outcome : Result (State B × Failure) A)
    : Type 0 where
  pub left_alone :
      (left : State B) (failure : Failure) → outcome ≡ err (left, failure) → left ≡ state

-- What `run` relies on: a failed decision leaves the state alone, an accepted one the stored results alone, and its payload has the type
-- that the command stores.
pub record IsCommand {B : Type 0} (kind : PayloadKind) (decide : List ℕ → State B → Decision B)
    : Type 0 where
  pub restores : (request_id : List ℕ) (state : State B) → Leaves state (decide request_id state)
  pub keeps_results :
      (request_id : List ℕ) (state : State B) {changed : State B} {payload : Payload}
      → decide request_id state ≡ ok (changed, payload)
      → changed.recent_results ≡ state.recent_results
  pub answers :
      (request_id : List ℕ) (state : State B) {changed : State B} {payload : Payload}
      → decide request_id state ≡ ok (changed, payload)
      → kind_of payload ≡ kind

-- The second answer of a retried command says what the first said.
pub record SameAnswer (first second : Response) : Type 0 where
  pub error : second.error ≡ first.error
  pub payload : second.payload ≡ first.payload
  pub state_version : second.state_version ≡ first.state_version

module _ {B : Type 0} (codec : Codec B) (kind : PayloadKind)
    (decide : List ℕ → State B → Decision B) where
  pub run_replay :
      (state : State B) (caller : ℕ) (request : Request) (fingerprint : List ℕ) (version now_ms : ℕ)
      {request_id : List ℕ} {stored : IdempotencyResult B}
      → parse_request_id request.request_id ≡ some request_id
      → recall caller request request_id fingerprint state.recent_results ≡ replay stored
      → run codec kind decide state caller request fingerprint version now_ms
        ≡ (state, replay_result codec kind request stored now_ms, false)
  unfolding run
  run_replay state caller request fingerprint version now_ms p r = rw (p, run) (rw (r, run) refl)

  pub run_fresh :
      (state : State B) (caller : ℕ) (request : Request) (fingerprint : List ℕ) (version now_ms : ℕ)
      {request_id : List ℕ}
      → parse_request_id request.request_id ≡ some request_id
      → recall caller request request_id fingerprint state.recent_results ≡ fresh
      → run codec kind decide state caller request fingerprint version now_ms ≡ (
          let (after, response) =
            finish codec kind state caller request request_id fingerprint version now_ms
              (decide request_id state) in
          (after, response, true))
  unfolding run
  run_fresh state caller request fingerprint version now_ms p r = rw (p, run) (rw (r, run) refl)

  pub replay_success :
      (laws : CodecLaws codec) (request : Request) (stored : IdempotencyResult B) (now_ms : ℕ)
      (payload : Payload)
      → kind_of payload ≡ kind
      → stored.success ≡ true
      → stored.response_payload ≡ codec.marshal_payload payload
      → replay_result codec kind request stored now_ms
        ≡ replay_envelope request stored now_ms none (some payload)
  unfolding replay_result replay_envelope
  replay_success laws request stored now_ms payload k s e =
      let round : codec.unmarshal_payload kind stored.response_payload ≡ some payload =
        (rw (e, ← k) (laws.payload_round payload)) in
      rw s (rw round refl)

  pub replay_failure :
      (laws : CodecLaws codec) (request : Request) (stored : IdempotencyResult B) (now_ms : ℕ)
      (failure : Failure)
      → stored.success ≡ false
      → stored.error_payload ≡ codec.marshal_error failure
      → replay_result codec kind request stored now_ms
        ≡ replay_envelope request stored now_ms (some failure) none
  unfolding replay_result replay_envelope
  replay_failure laws request stored now_ms failure s e =
      let round : codec.unmarshal_error stored.error_payload ≡ some failure =
        (rw e (laws.error_round failure)) in
      rw s (rw round refl)

  pub run_invalid :
      (state : State B) (caller : ℕ) (request : Request) (fingerprint : List ℕ) (version now_ms : ℕ)
      → parse_request_id request.request_id ≡ none
      → run codec kind decide state caller request fingerprint version now_ms ≡ (
        state,
        error_envelope request state now_ms (failure_of ErrorCode.invalid_argument),
        false,
      )
  unfolding run
  run_invalid state caller request fingerprint version now_ms p = rw (p, run) refl

  pub run_conflict :
      (state : State B) (caller : ℕ) (request : Request) (fingerprint : List ℕ) (version now_ms : ℕ)
      {request_id : List ℕ}
      → parse_request_id request.request_id ≡ some request_id
      → recall caller request request_id fingerprint state.recent_results ≡ conflict
      → run codec kind decide state caller request fingerprint version now_ms ≡ (
        state,
        error_envelope request state now_ms (failure_of ErrorCode.request_id_conflict),
        false,
      )
  unfolding run
  run_conflict state caller request fingerprint version now_ms p r = rw (p, run) (rw (r, run) refl)

  -- The second of two runs, on the state that the first leaves, against the first.
  abbrev pub Retried : State B × Response × Bool → ℕ → Request → List ℕ → ℕ → ℕ → Type 0
  Retried (s1, r1, dirty) caller request fingerprint version now_ms =
      let (s2, r2, changed) = run codec kind decide s1 caller request fingerprint version now_ms in
      (s2 ≡ s1) × (changed ≡ false) × SameAnswer r1 r2

  -- If the first run stored its result, the second replays it.
  pub replays :
      (s1 : State B) (r1 : Response) (caller : ℕ) (request : Request) (fingerprint : List ℕ)
      (version now_ms : ℕ) {request_id : List ℕ} {stored : IdempotencyResult B}
      → parse_request_id request.request_id ≡ some request_id
      → recall caller request request_id fingerprint s1.recent_results ≡ replay stored
      → SameAnswer r1 (replay_result codec kind request stored now_ms)
      → Retried (s1, r1, true) caller request fingerprint version now_ms
  replays s1 r1 caller request fingerprint version now_ms p r same =
      rw (run_replay s1 caller request fingerprint version now_ms p r) (refl, refl, same)

  pub same_request_self :
      (caller : ℕ) (request_id : List ℕ) (stored : IdempotencyResult B)
      → stored.caller_player_id ≡ caller
      → stored.request_id ≡ request_id
      → same_request caller request_id stored ≡ true
  unfolding same_request
  same_request_self caller request_id stored c r =
      rw (r) (ground (arith, bytes_equal_refl request_id))

  pub same_fingerprint_self :
      (request : Request) (fingerprint : List ℕ) (stored : IdempotencyResult B)
      → stored.fingerprint_schema_version ≡ fingerprint_schema_version
      → stored.protocol_version ≡ request.protocol_version
      → stored.action ≡ request.action
      → stored.target_player_id ≡ request.target_player_id
      → stored.payload_fingerprint_sha256 ≡ fingerprint
      → same_fingerprint request fingerprint stored ≡ true
  unfolding same_fingerprint
  same_fingerprint_self request fingerprint stored a b c d e =
      rw e (ground (arith, bytes_equal_refl fingerprint))
