-- ===== src/Command/ApplyFertilizer.antt =====
-- `applyFertilizer` of server/internal/player/fertilizer.go.
use supernova_classic_farm.Base.{
  ℕ, ◌+◌, ◌-◌, Bool, true, false, not, ◌||◌, Option, none, some, List, [], ◌∷◌, ◌++◌, Result, ok,
  err, ◌>>=◌, ◌>>◌, ◌==◌, ltb, max_int64,
}
use supernova_classic_farm.Base.Bytes.{uuid_of_hash, big_endian32, big_endian64}
use supernova_classic_farm.Base.Map.{lookup, insert, read}
use supernova_classic_farm.Plot.{EffectKind, TimedEffect, Plot}
use supernova_classic_farm.Growth.{
  GrowthError, is_growing, settle_growing_plot, estimate_plot_mature_at_ms,
}
use supernova_classic_farm.Wire.{
  ErrorCode, Failure, failure_of, empty_patch, Payload, PayloadKind, Request, Response,
}
use supernova_classic_farm.Config.{FertilizerConfig, ConfigSnapshot, fertilizer}
use supernova_classic_farm.Player.{State, increment_task, advance_versions}
use supernova_classic_farm.Player.Views.{plot_view, current_chapter, format_uuid_bytes}
use supernova_classic_farm.Idempotency.{Decision, Codec, fingerprint_head, run}
use supernova_classic_farm.Command.{
  reject_if, require, otherwise, config_unavailable, failure_at, consume_one, consumed_patch,
}

pub record ApplyFertilizerRequest : Type 0 where
  pub plot_id : ℕ
  pub fertilizer_item_id : ℕ

-- The bytes that `fertilizerFingerprint` hashes.
unfoldable pub fertilizer_fingerprint : ℕ → Request → ApplyFertilizerRequest → List ℕ
fertilizer_fingerprint caller request apply =
    fingerprint_head caller request
    ++ (big_endian32 apply.plot_id ++ big_endian32 apply.fertilizer_item_id)

-- "fertilizer-effect:"
abbrev effect_prefix : List ℕ
effect_prefix =
    b'f' ∷ b'e' ∷ b'r' ∷ b't' ∷ b'i' ∷ b'l' ∷ b'i' ∷ b'z' ∷ b'e' ∷ b'r' ∷ b'-' ∷ b'e' ∷ b'f' ∷ b'f'
    ∷ b'e' ∷ b'c' ∷ b't' ∷ b':' ∷ []

-- `fertilizerEffectID`: the first 16 bytes of the hash, with the version and variant bits of a UUID.
unfoldable pub fertilizer_effect_id : (List ℕ → List ℕ) → ℕ → List ℕ → List ℕ
fertilizer_effect_id sha256 player request_id =
    let sum = sha256 (effect_prefix ++ (big_endian64 player ++ request_id)) in uuid_of_hash sum

-- `plot.FertilizerEffect != nil && now < plot.FertilizerEffect.EndAtMs`
unfoldable pub is_active : Option TimedEffect → ℕ → Bool
is_active none now_ms = false
is_active (some effect) now_ms = ltb now_ms effect.end_at_ms

-- The settled plot, if it is still growing.
abbrev pub still_growing :
    {S : Type 0} → S → Plot × Result GrowthError Bool → Failure → Result (S × Failure) Plot
still_growing state (settled, err e) failure = err (state, failure)
still_growing state (settled, ok true) failure = err (state, failure)
still_growing state (settled, ok false) failure = ok settled

-- The plot under the new effect, before its maturity is estimated anew.
unfoldable pub fertilized_plot : Plot → FertilizerConfig → ℕ → List ℕ → ℕ → Plot
fertilized_plot settled fertilizer_config item_id effect_id now_ms = record settled {
  fertilizer_effect = some (record {
    effect_instance_id = effect_id;
    effect_kind = EffectKind.fertilizer;
    effect_item_or_pest_id = item_id;
    source_player_id = none;
    config_version = fertilizer_config.config_version;
    modifier = some fertilizer_config.modifier_scaled6;
    start_at_ms = now_ms;
    end_at_ms = now_ms + fertilizer_config.duration_ms;
  });
}

module _ {B : Type 0} where
  -- `*plot = value`, for a plot that the map points to.
  unfoldable pub write_plot : State B → ℕ → Plot → State B
  write_plot state plot_id value = record state { plots = insert plot_id value state.plots }

  -- What follows the checks. The plot is changed in place, and put back before a rejection: it is settled and put under the effect.
  unfoldable pub apply_effect :
      (List ℕ → List ℕ)
      → ℕ
      → ConfigSnapshot
      → ℕ
      → ApplyFertilizerRequest
      → List ℕ
      → State B
      → Plot
      → FertilizerConfig
      → Decision B
  unfolding write_plot
  apply_effect sha256 caller config now_ms apply request_id state plot fertilizer_config = do
    let item_quantity = read state.inventory apply.fertilizer_item_id
    let reached = settle_growing_plot plot now_ms
    let in_place = write_plot state apply.plot_id reached.0
    settled ←
        still_growing (write_plot in_place apply.plot_id plot) reached
          (failure_at ErrorCode.plot_state_conflict plot)
    let effect_id = fertilizer_effect_id sha256 caller request_id
    let fertilized =
        fertilized_plot settled fertilizer_config apply.fertilizer_item_id effect_id now_ms
    let under_effect = write_plot in_place apply.plot_id fertilized
    estimate ←
        otherwise (write_plot under_effect apply.plot_id plot)
          (estimate_plot_mature_at_ms fertilized now_ms) config_unavailable
    let grown = record fertilized { estimated_mature_at_ms = some estimate }
    let changed =
        advance_versions
          (record state {
            inventory = consume_one apply.fertilizer_item_id state.inventory;
            plots = insert apply.plot_id grown state.plots;
            tasks = increment_task 3 state.tasks;
          })
          config.version now_ms
    ok (
      changed,
      Payload.apply_fertilizer_response (record {
        consumed_fertilizer_item_id = apply.fertilizer_item_id;
        effect_instance_id = format_uuid_bytes effect_id;
        patch = consumed_patch apply.fertilizer_item_id item_quantity (record empty_patch {
          plot_upserts = plot_view grown ∷ [];
          current_chapter = some (current_chapter changed);
        });
      }),
    )

  unfoldable pub apply_fertilizer_decide :
      (List ℕ → List ℕ)
      → ℕ
      → ConfigSnapshot
      → ℕ
      → ApplyFertilizerRequest
      → List ℕ
      → State B
      → Decision B
  apply_fertilizer_decide sha256 caller config now_ms apply request_id state = do
    reject_if state (apply.plot_id == 0 || apply.fertilizer_item_id == 0)
        (failure_of ErrorCode.invalid_argument)
    plot ← require state (lookup apply.plot_id state.plots) (failure_of ErrorCode.plot_not_found)
    reject_if state (not (is_growing plot.state)) (failure_at ErrorCode.plot_state_conflict plot)
    reject_if state (is_active plot.fertilizer_effect now_ms)
        (failure_at ErrorCode.fertilizer_already_active plot)
    fertilizer_config ←
        require state (fertilizer config apply.fertilizer_item_id) config_unavailable
    reject_if state (not fertilizer_config.enabled) (failure_of ErrorCode.config_entry_disabled)
    let item_quantity = read state.inventory apply.fertilizer_item_id
    reject_if state (item_quantity == 0) (failure_of ErrorCode.item_not_owned)
    reject_if state (ltb (max_int64 - fertilizer_config.duration_ms) now_ms) config_unavailable
    apply_effect sha256 caller config now_ms apply request_id state plot fertilizer_config

  unfoldable pub apply_fertilizer :
      Codec B
      → State B
      → ℕ
      → Request
      → ApplyFertilizerRequest
      → ConfigSnapshot
      → ℕ
      → State B × Response × Bool
  apply_fertilizer codec state caller request apply config now_ms =
      run codec PayloadKind.apply_fertilizer
        (apply_fertilizer_decide codec.sha256 caller config now_ms apply) state caller request
        (codec.sha256 (fertilizer_fingerprint caller request apply)) config.version now_ms
