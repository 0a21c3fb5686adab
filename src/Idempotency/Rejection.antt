-- ===== src/Idempotency/Rejection.antt =====
-- A command without a payload in its answer, for the code that every command of
-- server/internal/player repeats around its decision.
use mathlib.Core.Path.{subst}
use supernova_classic_farm.Base.{
  ℕ, ◌≡◌, refl, sym, ap, ◌+◌, u64, inl, inr, none, List, ok, err, Option-cases, Bool,
}
use supernova_classic_farm.Wire.{PayloadKind, Request, Response}
use supernova_classic_farm.Player.{State}
use supernova_classic_farm.Idempotency.{
  Codec, recall, run, finish, store_failure, store_success, append_result, failure_record, Decision,
  success_envelope, parse_request_id,
}
use supernova_classic_farm.Idempotency.Replay.{
  Leaves, run_replay, run_fresh, run_invalid, run_conflict,
}
use supernova_classic_farm.Idempotency.Retry.{Recall-cases}

-- The states differ at most in what a stored failure changes.
abbrev pub OnlyBookkeeping : {B : Type 0} → State B → State B → Type 0
OnlyBookkeeping state after = after ≡ record state {
  checkpoint_revision = after.checkpoint_revision;
  config_version = after.config_version;
  updated_at_ms = after.updated_at_ms;
  recent_results = after.recent_results;
}

module _ {B : Type 0} (codec : Codec B) (kind : PayloadKind)
    (decide : List ℕ → State B → Decision B) (state : State B) (caller : ℕ) (request : Request)
    (fingerprint : List ℕ) (version now_ms : ℕ)
    (restores : (request_id : List ℕ) (s : State B) → Leaves s (decide request_id s)) where
  finish_rejected :
      (request_id : List ℕ) (decision : Decision B)
      → Leaves state decision
      → (finish codec kind state caller request request_id fingerprint version now_ms
          decision).1.payload
        ≡ none
      → OnlyBookkeeping state
          (finish codec kind state caller request request_id fingerprint version now_ms decision).0
  unfolding finish store_failure store_success success_envelope
  finish_rejected request_id (err (left, failure)) same h =
      ap {A = State B} {B = State B}
        (λ s. record s {
          checkpoint_revision = u64 (left.checkpoint_revision + 1);
          config_version = version;
          updated_at_ms = now_ms;
          recent_results =
              append_result left.recent_results
                (failure_record codec kind left request request_id fingerprint now_ms failure)
                now_ms;
        })
        (same.left_alone left failure refl)
  finish_rejected request_id (ok (changed, payload)) same h = cc

  -- A run leaves the state's own bookkeeping at most, unless its answer has a payload.
  abbrev pub Rejected : State B × Response × Bool → Type 0
  Rejected (after, response, dirty) = response.payload ≡ none → OnlyBookkeeping state after

  run-Rejected : Rejected (run codec kind decide state caller request fingerprint version now_ms)
  run-Rejected = elim (Option-cases (parse_request_id request.request_id)) [
    | inl p ↦
        subst Rejected
          (sym (run_invalid codec kind decide state caller request fingerprint version now_ms p))
          (λ h. refl)
    | inr (request_id, p) ↦
        elim (Recall-cases (recall caller request request_id fingerprint state.recent_results)) [
          | inl r ↦
              subst Rejected
                (sym
                  (run_fresh codec kind decide state caller request fingerprint version now_ms p r))
                (finish_rejected request_id (decide request_id state) (restores request_id state))
          | inr (inl r) ↦
              subst Rejected
                (sym (
                  run_conflict codec kind decide state caller request fingerprint version now_ms p
                    r))
                (λ h. refl)
          | inr (inr (stored, r)) ↦
              subst Rejected
                (sym (
                  run_replay codec kind decide state caller request fingerprint version now_ms p r))
                (λ h. refl)
        ]
  ]

  pub run_rejected :
      (run codec kind decide state caller request fingerprint version now_ms).1.payload ≡ none
      → OnlyBookkeeping state
          (run codec kind decide state caller request fingerprint version now_ms).0
  run_rejected h = run-Rejected h
