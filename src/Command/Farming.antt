-- ===== src/Command/Farming.antt =====
-- What the commands on a plot do when they are accepted (server/internal/player/plant.go,
-- harvest.go and clean_plot.go).
use supernova_classic_farm.Base.{
  ℕ, ◌+◌, ◌≤◌, ◌≡◌, refl, sym, ap, ◌∙◌, true, false, not, ◌||◌, some, List, arith, ok, ◌==◌, ltb,
  if◌then◌else◌, u64,
}
use supernova_classic_farm.Base.Map.{lookup, read, lookup-insert}
use supernova_classic_farm.Plot.{PlotState, Plot, empty_plot}
use supernova_classic_farm.Growth.{estimate_mature_at_ms}
use supernova_classic_farm.Wire.{Payload, PayloadKind, kind_of}
use supernova_classic_farm.Config.{CropConfig, ConfigSnapshot, crop_for_seed}
use supernova_classic_farm.Player.{State, advance_versions, ensure_career}
use supernova_classic_farm.Player.Views.{is_mature}
use supernova_classic_farm.Command.Accepted.{
  passed_check, found_value, worked_out, accepted, not-false,
}
use supernova_classic_farm.Command.Stock.{consume_one-read}
use supernova_classic_farm.Command.Plant.{PlantRequest, is_empty, planted_plot, plant_decide}
use supernova_classic_farm.Command.Harvest.{
  inventory_stack_limit, harvested_quantity, harvested_plot, harvest_decide, reaped_state,
}
use supernova_classic_farm.Command.CleanPlot.{needs_cleanup, clean_plot_decide}
use supernova_classic_farm.Command.Sowing.{
  IsDue, estimate_mature_at_ms-IsDue, IsSown, planted_plot-IsSown,
}
use supernova_classic_farm.Command.Reaping.{
  gather-Gathered, IsReaped, harvested_plot-IsReaped, IsRemainder, harvested_quantity-IsRemainder,
  harvest-Reaping,
}

empty_state : (s : PlotState) → is_empty s ≡ true → s ≡ PlotState.empty
empty_state PlotState.empty h = refl
empty_state PlotState.unspecified h = cc
empty_state PlotState.growing h = cc
empty_state PlotState.mature h = cc
empty_state PlotState.need_cleanup h = cc

mature_state : (s : PlotState) → is_mature s ≡ true → s ≡ PlotState.mature
mature_state PlotState.mature h = refl
mature_state PlotState.unspecified h = cc
mature_state PlotState.empty h = cc
mature_state PlotState.growing h = cc
mature_state PlotState.need_cleanup h = cc

cleanup_state : (s : PlotState) → needs_cleanup s ≡ true → s ≡ PlotState.need_cleanup
cleanup_state PlotState.need_cleanup h = refl
cleanup_state PlotState.unspecified h = cc
cleanup_state PlotState.empty h = cc
cleanup_state PlotState.growing h = cc
cleanup_state PlotState.mature h = cc

-- What is true of a cleaning that was accepted.
pub record Cleaned {B : Type 0} (plot_id : ℕ) (state changed : State B) (payload : Payload)
    : Type 0 where
  pub before : Plot
  pub found : lookup plot_id state.plots ≡ some before
  pub needed : before.state ≡ PlotState.need_cleanup
  pub plots :
      (other : ℕ)
      → lookup other changed.plots
        ≡ (if plot_id == other then some (empty_plot plot_id) else lookup other state.plots)
  pub coins : changed.coins ≡ state.coins
  pub inventory : changed.inventory ≡ state.inventory
  pub player_seq : changed.player_seq ≡ u64 (state.player_seq + 1)
  pub results : changed.recent_results ≡ state.recent_results
  pub answer : kind_of payload ≡ PayloadKind.clean_plot

-- A cleaning that is accepted is of a plot in need of cleanup, which it leaves empty. Every other
-- plot, the coins, the items and the stored results are as they were, the player's sequence
-- number advances and the answer is a cleaning.
pub clean_plot-Cleaned :
    {B : Type 0} (config : ConfigSnapshot) (now_ms plot_id : ℕ) (request_id : List ℕ)
    (state : State B) {changed : State B} {payload : Payload}
    → clean_plot_decide config now_ms plot_id request_id state ≡ ok (changed, payload)
    → Cleaned plot_id state changed payload
unfolding clean_plot_decide advance_versions
clean_plot-Cleaned config now_ms plot_id request_id state {changed} {payload} h =
    let (_, h1) = passed_check state (plot_id == 0) _ _ h in
    let (plot, found, h2) = found_value state (lookup plot_id state.plots) _ _ h1 in
    let (needed, h3) = passed_check state (not (needs_cleanup plot.state)) _ _ h2 in
    let (same, told) = accepted _ refl h3 in
    record {
      before = plot;
      found = found;
      needed = cleanup_state plot.state (not-false _ needed);
      plots = λ other.
          ap (λ s. lookup other s.plots) same
          ∙ (lookup-insert plot_id other (empty_plot plot_id) state.plots);
      coins = ap (λ s. s.coins) same;
      inventory = ap (λ s. s.inventory) same;
      player_seq = ap (λ s. s.player_seq) same;
      results = ap (λ s. s.recent_results) same;
      answer = ap kind_of told;
    }

-- What is true of a planting that was accepted.
pub record Planted {B : Type 0} (config : ConfigSnapshot) (now_ms : ℕ) (request : PlantRequest)
    (state changed : State B) (payload : Payload) : Type 0 where
  pub before : Plot
  pub planted : Plot
  pub crop : CropConfig
  pub estimate : ℕ
  pub found : lookup request.plot_id state.plots ≡ some before
  pub empty : before.state ≡ PlotState.empty
  pub configured : crop_for_seed config request.seed_item_id ≡ some crop
  pub due : IsDue now_ms crop.maturity_value_scaled9 crop.base_growth_rate_scaled6 estimate
  pub plots :
      (other : ℕ)
      → lookup other changed.plots
        ≡ (if request.plot_id == other then some planted else lookup other state.plots)
  pub sown : IsSown before crop now_ms estimate planted
  pub seeds :
      (item_id : ℕ)
      → read state.inventory item_id
        ≡ (if request.seed_item_id == item_id then 1 else 0) + read changed.inventory item_id
  pub coins : changed.coins ≡ state.coins
  pub player_seq : changed.player_seq ≡ u64 (state.player_seq + 1)
  pub results : changed.recent_results ≡ state.recent_results
  pub answer : kind_of payload ≡ PayloadKind.plant

-- A planting that is accepted is on an empty plot, with a seed of a configured crop. Exactly one
-- seed is used up. The plot, under its ID, is growing with the crop's fields, settled now with no
-- growth yet, without effects and with nothing stolen. Its estimate is the first millisecond at
-- which the crop's positive rate, held from now on, reaches its positive maturity value. Every
-- other plot, the coins and the stored results are as they were, the player's sequence number
-- advances and the answer is a planting.
pub plant-Planted :
    {B : Type 0} (config : ConfigSnapshot) (now_ms : ℕ) (request : PlantRequest)
    (request_id : List ℕ) (state : State B) {changed : State B} {payload : Payload}
    → plant_decide config now_ms request request_id state ≡ ok (changed, payload)
    → Planted config now_ms request state changed payload
unfolding plant_decide advance_versions
plant-Planted config now_ms request request_id state {changed} {payload} h =
    let (_, h1) = passed_check state (request.plot_id == 0 || request.seed_item_id == 0) _ _ h in
    let (plot, found, h2) = found_value state (lookup request.plot_id state.plots) _ _ h1 in
    let (free, h3) = passed_check state (not (is_empty plot.state)) _ _ h2 in
    let (crop, sown, h4) = found_value state (crop_for_seed config request.seed_item_id) _ _ h3 in
    let (_, h5) = passed_check state (not crop.enabled) _ _ h4 in
    let (owned, h6) = passed_check state (read state.inventory request.seed_item_id == 0) _ _ h5 in
    let (estimate, due, h7) =
      worked_out state
        (estimate_mature_at_ms now_ms crop.maturity_value_scaled9 crop.base_growth_rate_scaled6) _ _
        h6 in
    let (same, told) = accepted _ refl h7 in
    record {
      before = plot;
      planted = planted_plot plot crop now_ms estimate;
      crop = crop;
      estimate = estimate;
      found = found;
      empty = empty_state plot.state (not-false _ free);
      configured = sown;
      due = estimate_mature_at_ms-IsDue now_ms _ _ due;
      plots = λ other.
          ap (λ s. lookup other s.plots) same
          ∙ (lookup-insert request.plot_id other (planted_plot plot crop now_ms estimate)
              state.plots);
      sown = planted_plot-IsSown plot crop now_ms estimate;
      seeds = λ item_id.
          consume_one-read request.seed_item_id item_id state.inventory owned
          ∙ ap (λ s. (if request.seed_item_id == item_id then 1 else 0) + read s.inventory item_id)
              (sym same);
      coins = ap (λ s. s.coins) same;
      player_seq = ap (λ s. s.player_seq) same;
      results = ap (λ s. s.recent_results) same;
      answer = ap kind_of told;
    }

-- What is true of a harvest that was accepted.
pub record Harvested {B : Type 0} (plot_id : ℕ) (state changed : State B) (payload : Payload)
    : Type 0 where
  pub before : Plot
  pub reaped : Plot
  pub quantity : ℕ
  pub found : lookup plot_id state.plots ≡ some before
  pub mature : before.state ≡ PlotState.mature
  pub plots :
      (other : ℕ)
      → lookup other changed.plots
        ≡ (if plot_id == other then some reaped else lookup other state.plots)
  pub taken_off : IsReaped before reaped
  pub remainder : IsRemainder before quantity
  pub stocked :
      (item_id : ℕ)
      → read changed.inventory item_id ≡ (
          if before.crop_item_id == item_id
          then read state.inventory item_id + quantity
          else read state.inventory item_id)
  pub stack : read changed.inventory before.crop_item_id ≤ inventory_stack_limit
  pub career :
      (ensure_career changed.career).total_harvested_crop_quantity
      ≡ (ensure_career state.career).total_harvested_crop_quantity + quantity
  pub coins : changed.coins ≡ state.coins
  pub player_seq : changed.player_seq ≡ u64 (state.player_seq + 1)
  pub results : changed.recent_results ≡ state.recent_results
  pub answer : kind_of payload ≡ PayloadKind.harvest

-- A harvest that is accepted is of a mature plot. Afterwards this plot needs cleanup, has no
-- growth, no estimate and no effects and is otherwise as it was, and so is every other plot. What
-- is harvested and what was stolen add up to the plot's yield, if that is a uint32 and covers
-- what was stolen. The harvested quantity is added to the crop's stack, to no other, and to the
-- career total, the stack holds at most 300, coins and stored results are kept, the player's
-- sequence number advances and the answer is a harvest.
pub harvest-Harvested :
    {B : Type 0} (config : ConfigSnapshot) (now_ms plot_id : ℕ) (request_id : List ℕ)
    (state : State B) {changed : State B} {payload : Payload}
    → harvest_decide config now_ms plot_id request_id state ≡ ok (changed, payload)
    → Harvested plot_id state changed payload
unfolding reaped_state advance_versions
harvest-Harvested config now_ms plot_id request_id state {changed} {payload} h =
    let r = harvest-Reaping config now_ms plot_id request_id state h in
    let plot = r.before in
    let quantity = harvested_quantity plot in
    let current = read state.inventory plot.crop_item_id in
    let g = gather-Gathered state plot quantity r.room r.kept in
    let held = λ (item_id : ℕ). ap (λ s. read s.inventory item_id) r.same ∙ g.stocked item_id in
    record {
      before = plot;
      reaped = harvested_plot plot;
      quantity = quantity;
      found = r.found;
      mature = mature_state plot.state r.mature;
      plots = λ other.
          ap (λ s. lookup other s.plots) r.same
          ∙ lookup-insert plot_id other (harvested_plot plot) r.gathered.plots
          ∙ ap (λ m. (if plot_id == other then some (harvested_plot plot) else lookup other m))
              g.plots;
      taken_off = harvested_plot-IsReaped plot;
      remainder = harvested_quantity-IsRemainder plot;
      stocked = held;
      stack = filled plot.crop_item_id current quantity (held plot.crop_item_id) r.room;
      career = ap (λ s. (ensure_career s.career).total_harvested_crop_quantity) r.same ∙ g.career;
      coins = ap (λ s. s.coins) r.same ∙ g.coins;
      player_seq = ap (λ s. s.player_seq) r.same ∙ ap (λ n. u64 (n + 1)) g.player_seq;
      results = ap (λ s. s.recent_results) r.same ∙ g.results;
      answer = r.told;
    }
  where
    filled :
        (item_id current quantity : ℕ) {after : ℕ}
        → after ≡ (if item_id == item_id then current + quantity else current)
        → ltb 300 (current + quantity) ≡ false
        → after ≤ 300
    filled item_id current quantity e room = ground arith
