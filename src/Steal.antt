-- ===== src/Steal.antt =====
-- What a visitor may do to a plot (server/internal/player/public_plot_view.go), and what a steal
-- does to it on the owner's side (`ApplyStealOnOwner` of steal_crop.go, for a visitor and a crop
-- that its request check lets through).
pub mod Fairness
mod Tests
use supernova_classic_farm.Base.{
  ℕ, ◌+◌, Bool, true, false, not, ◌||◌, Option, none, some, List, [], ◌∷◌, ◌++◌, ◌==◌, leb,
  if◌then◌else◌, u32,
}
use supernova_classic_farm.Plot.{PlotState, TimedEffect, Plot}
use supernova_classic_farm.Growth.{is_growing}
use supernova_classic_farm.Player.{contains}
use supernova_classic_farm.Player.Views.{is_mature}
use supernova_classic_farm.Command.CleanPlot.{needs_cleanup}

-- `CanSteal`; the sum of three uint32 values is a uint64.
unfoldable pub can_steal : Plot → Bool
can_steal plot =
    if not (is_mature plot.state)
    then false
    else if plot.steal_quantity == 0 || plot.max_steal_times == 0
    then false
    else if leb plot.max_steal_times plot.steal_count
    then false
    else leb (plot.stolen_quantity + plot.steal_quantity + plot.protected_owner_yield)
        plot.base_yield

-- `visitorAlreadyStole`
unfoldable pub visitor_already_stole : Plot → ℕ → Bool
visitor_already_stole plot visitor_id =
    if visitor_id == 0 then false else contains visitor_id plot.steal_visitor_player_ids

abbrev no_effect : Option TimedEffect → Bool
no_effect none = true
no_effect (some effect) = false

-- `CanApplyPest`
unfoldable pub can_apply_pest : Plot → Bool
can_apply_pest plot = if is_growing plot.state then no_effect plot.pest_effect else false

-- The fields that a steal writes.
unfoldable pub stolen_plot : Plot → ℕ → Plot
stolen_plot plot visitor_id = record plot {
  steal_count = u32 (plot.steal_count + 1);
  stolen_quantity = u32 (plot.stolen_quantity + plot.steal_quantity);
  steal_visitor_player_ids = plot.steal_visitor_player_ids ++ visitor_id ∷ [];
}

-- The check and the change of the plot; `none` is ErrStealNotAvailable, which changes nothing.
unfoldable pub steal : Plot → ℕ → ℕ → Option Plot
steal plot visitor_id expected_crop_item_id =
    if not (can_steal plot)
      || (not (plot.crop_item_id == expected_crop_item_id) || visitor_already_stole plot visitor_id)
    then none
    else some (stolen_plot plot visitor_id)
