-- ===== src/Command/Fertilizing.antt =====
-- What applying a fertilizer does when it is accepted (server/internal/player/fertilizer.go).
use supernova_classic_farm.Base.{
  ℕ, ◌+◌, ◌-◌, ◌≡◌, refl, sym, ap, ◌∙◌, Bool, true, false, not, ◌||◌, none, some, List, Result, ok,
  err, ◌>>=◌, ◌==◌, ltb, if◌then◌else◌, u64, max_int64,
}
use supernova_classic_farm.Base.Map.{lookup, insert, read, lookup-insert}
use supernova_classic_farm.Plot.{EffectKind, TimedEffect, Plot}
use supernova_classic_farm.Growth.{
  GrowthError, is_growing, settle_growing_plot, estimate_plot_mature_at_ms, walk,
  effective_rate_scaled6,
}
use supernova_classic_farm.Wire.{Failure, Payload, PayloadKind, kind_of}
use supernova_classic_farm.Config.{FertilizerConfig, ConfigSnapshot, fertilizer}
use supernova_classic_farm.Player.{State, increment_task, advance_versions}
use supernova_classic_farm.Command.{consume_one}
use supernova_classic_farm.Command.Accepted.{
  passed_check, found_value, worked_out, accepted, not-false,
}
use supernova_classic_farm.Command.Stock.{consume_one-read}
use supernova_classic_farm.Command.ApplyFertilizer.{
  ApplyFertilizerRequest, fertilizer_effect_id, is_active, still_growing, fertilized_plot,
  apply_effect, apply_fertilizer_decide,
}

-- The settled plot under the effect of a fertilizer that was used at `now_ms`: the effect starts
-- then, lasts for the fertilizer's duration and has its modifier, the estimate is new, and nothing
-- else of the plot is.
pub record IsUnderEffect (settled : Plot) (used : FertilizerConfig) (item_id : ℕ)
    (effect_id : List ℕ) (now_ms estimate : ℕ) (fertilized : Plot) : Type 0 where
  pub effect : TimedEffect
  pub carried : fertilized.fertilizer_effect ≡ some effect
  pub starts : effect.start_at_ms ≡ now_ms
  pub ends : effect.end_at_ms ≡ now_ms + used.duration_ms
  pub modifier : effect.modifier ≡ some used.modifier_scaled6
  pub kind : effect.effect_kind ≡ EffectKind.fertilizer
  pub item : effect.effect_item_or_pest_id ≡ item_id
  pub own : effect.source_player_id ≡ none
  pub version : effect.config_version ≡ used.config_version
  pub instance_id : effect.effect_instance_id ≡ effect_id
  pub estimated : fertilized.estimated_mature_at_ms ≡ some estimate
  pub rest :
      record fertilized {
        fertilizer_effect = settled.fertilizer_effect;
        estimated_mature_at_ms = settled.estimated_mature_at_ms;
      }
      ≡ settled

fertilized_plot-IsUnderEffect :
    (settled : Plot) (used : FertilizerConfig) (item_id : ℕ) (effect_id : List ℕ)
    (now_ms estimate : ℕ)
    → IsUnderEffect settled used item_id effect_id now_ms estimate
        (record (fertilized_plot settled used item_id effect_id now_ms) {
          estimated_mature_at_ms = some estimate;
        })
unfolding fertilized_plot
fertilized_plot-IsUnderEffect settled used item_id effect_id now_ms estimate = record {
  effect = _;
  carried = refl;
  starts = refl;
  ends = refl;
  modifier = refl;
  kind = refl;
  item = refl;
  own = refl;
  version = refl;
  instance_id = refl;
  estimated = refl;
  rest = refl;
}

-- What is true of a fertilizer that was applied. The plot is settled first, and the maturity is
-- the one that the effect brings about.
pub record Fertilized {B : Type 0} (sha256 : List ℕ → List ℕ) (caller : ℕ) (config : ConfigSnapshot)
    (now_ms : ℕ) (request : ApplyFertilizerRequest) (request_id : List ℕ) (state changed : State B)
    (payload : Payload) : Type 0 where
  pub before : Plot
  pub settled : Plot
  pub fertilized : Plot
  pub used : FertilizerConfig
  pub estimate : ℕ
  pub found : lookup request.plot_id state.plots ≡ some before
  pub growing : is_growing before.state ≡ true
  pub inactive : is_active before.fertilizer_effect now_ms ≡ false
  pub settles : settle_growing_plot before now_ms ≡ (settled, ok false)
  pub offered : fertilizer config request.fertilizer_item_id ≡ some used
  pub due : estimate_plot_mature_at_ms fertilized now_ms ≡ ok estimate
  pub plots :
      (other : ℕ)
      → lookup other changed.plots
        ≡ (if request.plot_id == other then some fertilized else lookup other state.plots)
  pub under_effect :
      IsUnderEffect settled used request.fertilizer_item_id
        (fertilizer_effect_id sha256 caller request_id)
        now_ms
        estimate
        fertilized
  pub items :
      (item_id : ℕ)
      → read state.inventory item_id
        ≡ (if request.fertilizer_item_id == item_id then 1 else 0) + read changed.inventory item_id
  pub coins : changed.coins ≡ state.coins
  pub player_seq : changed.player_seq ≡ u64 (state.player_seq + 1)
  pub results : changed.recent_results ≡ state.recent_results
  pub answer : kind_of payload ≡ PayloadKind.apply_fertilizer

settled_once :
    {S C : Type 0} (state : S) (r : Plot × Result GrowthError Bool) (failure : Failure)
    (rest : Plot → Result (S × Failure) C) {c : C}
    → (still_growing state r failure >>= rest) ≡ ok c
    → (settled : Plot) × (r ≡ (settled, ok false)) × (rest settled ≡ ok c)
settled_once state (settled, err e) failure rest h = cc
settled_once state (settled, ok true) failure rest h = cc
settled_once state (settled, ok false) failure rest h = (settled, refl, h)

build :
    {B : Type 0} {sha256 : List ℕ → List ℕ} {caller : ℕ} {config : ConfigSnapshot} {now_ms : ℕ}
    {request : ApplyFertilizerRequest} {request_id : List ℕ} {state changed : State B}
    {payload : Payload} (plot settled : Plot) (used : FertilizerConfig) (estimate : ℕ)
    → lookup request.plot_id state.plots ≡ some plot
    → is_growing plot.state ≡ true
    → is_active plot.fertilizer_effect now_ms ≡ false
    → settle_growing_plot plot now_ms ≡ (settled, ok false)
    → fertilizer config request.fertilizer_item_id ≡ some used
    → estimate_plot_mature_at_ms
        (fertilized_plot settled used request.fertilizer_item_id
          (fertilizer_effect_id sha256 caller request_id)
          now_ms)
        now_ms
      ≡ ok estimate
    → (read state.inventory request.fertilizer_item_id == 0) ≡ false
    → changed
      ≡ advance_versions
          (record state {
            inventory = consume_one request.fertilizer_item_id state.inventory;
            plots =
                insert request.plot_id
                  (record (fertilized_plot settled used request.fertilizer_item_id
                    (fertilizer_effect_id sha256 caller request_id)
                    now_ms) { estimated_mature_at_ms = some estimate })
                  state.plots;
            tasks = increment_task 3 state.tasks;
          })
          config.version
          now_ms
    → kind_of payload ≡ PayloadKind.apply_fertilizer
    → Fertilized sha256 caller config now_ms request request_id state changed payload
unfolding advance_versions fertilized_plot walk effective_rate_scaled6 estimate_plot_mature_at_ms
build {B} {sha256} {caller} {config} {now_ms} {request} {request_id} {state} plot settled used
      estimate found growing inactive settles offered due owned same answer =
    let item_id = request.fertilizer_item_id in
    let fertilized =
      fertilized_plot settled used item_id (fertilizer_effect_id sha256 caller request_id) now_ms in
    record {
      before = plot;
      settled = settled;
      fertilized = record fertilized { estimated_mature_at_ms = some estimate };
      used = used;
      estimate = estimate;
      found = found;
      growing = growing;
      inactive = inactive;
      settles = settles;
      offered = offered;
      due = due;
      plots = λ other.
          ap (λ s. lookup other s.plots) same
          ∙ lookup-insert request.plot_id other
              (record fertilized { estimated_mature_at_ms = some estimate }) state.plots;
      under_effect = fertilized_plot-IsUnderEffect settled used item_id _ now_ms estimate;
      items = λ other.
          consume_one-read item_id other state.inventory owned
          ∙ ap (λ s. (if item_id == other then 1 else 0) + read s.inventory other) (sym same);
      coins = ap (λ s. s.coins) same;
      player_seq = ap (λ s. s.player_seq) same;
      results = ap (λ s. s.recent_results) same;
      answer = answer;
    }

apply_effect-Fertilized :
    {B : Type 0} (sha256 : List ℕ → List ℕ) (caller : ℕ) (config : ConfigSnapshot) (now_ms : ℕ)
    (request : ApplyFertilizerRequest) (request_id : List ℕ) (state : State B) (plot : Plot)
    (used : FertilizerConfig) {changed : State B} {payload : Payload}
    → lookup request.plot_id state.plots ≡ some plot
    → is_growing plot.state ≡ true
    → is_active plot.fertilizer_effect now_ms ≡ false
    → fertilizer config request.fertilizer_item_id ≡ some used
    → (read state.inventory request.fertilizer_item_id == 0) ≡ false
    → apply_effect sha256 caller config now_ms request request_id state plot used
      ≡ ok (changed, payload)
    → Fertilized sha256 caller config now_ms request request_id state changed payload
unfolding apply_effect
apply_effect-Fertilized sha256 caller config now_ms request request_id state plot used {changed}
      {payload} found growing inactive offered owned h8 =
    let item_id = request.fertilizer_item_id in
    let (settled, settles, h9) = settled_once _ (settle_growing_plot plot now_ms) _ _ h8 in
    let fertilized =
      fertilized_plot settled used item_id (fertilizer_effect_id sha256 caller request_id) now_ms in
    let (estimate, due, h10) = worked_out _ (estimate_plot_mature_at_ms fertilized now_ms) _ _ h9 in
    let (same, told) = accepted _ refl h10 in
    build plot settled used estimate found growing inactive settles offered due owned same
      (ap kind_of told)

-- A fertilizer that is applied goes to a growing plot without an active fertilizer that is still
-- growing once settled. The plot is then the settled one with an effect of that item and its
-- modifier, which starts now and lasts for the fertilizer's duration, and with the estimate that
-- the growth under this effect has; nothing else of it differs. Exactly one item is used up,
-- every other plot, the coins and the stored results are as they were, the player's sequence
-- number advances and the answer is of that kind.
pub apply_fertilizer-Fertilized :
    {B : Type 0} (sha256 : List ℕ → List ℕ) (caller : ℕ) (config : ConfigSnapshot) (now_ms : ℕ)
    (request : ApplyFertilizerRequest) (request_id : List ℕ) (state : State B) {changed : State B}
    {payload : Payload}
    → apply_fertilizer_decide sha256 caller config now_ms request request_id state
      ≡ ok (changed, payload)
    → Fertilized sha256 caller config now_ms request request_id state changed payload
unfolding apply_fertilizer_decide
apply_fertilizer-Fertilized sha256 caller config now_ms request request_id state {changed} {payload}
      h =
    let item_id = request.fertilizer_item_id in
    let (_, h1) = passed_check state (request.plot_id == 0 || item_id == 0) _ _ h in
    let (plot, found, h2) = found_value state (lookup request.plot_id state.plots) _ _ h1 in
    let (growing, h3) = passed_check state (not (is_growing plot.state)) _ _ h2 in
    let (inactive, h4) = passed_check state (is_active plot.fertilizer_effect now_ms) _ _ h3 in
    let (used, offered, h5) = found_value state (fertilizer config item_id) _ _ h4 in
    let (_, h6) = passed_check state (not used.enabled) _ _ h5 in
    let (owned, h7) = passed_check state (read state.inventory item_id == 0) _ _ h6 in
    let (_, h8) = passed_check state (ltb (max_int64 - used.duration_ms) now_ms) _ _ h7 in
    apply_effect-Fertilized sha256 caller config now_ms request request_id state plot used found
      (not-false _ growing) inactive offered owned h8
