-- ===== src/Steal/Tests.antt =====
-- Examples for steals: a ripe plot of 20, of which the owner keeps 10, robbed by visitors 7 and 8.
use supernova_classic_farm.Base.{◌+◌, ◌≤◌, ◌≡◌, refl, none, some, arith}
use supernova_classic_farm.Plot.{PlotState, Plot, empty_plot}
use supernova_classic_farm.Command.Harvest.{harvested_quantity}
use supernova_classic_farm.Steal.{steal, stolen_plot, visitor_already_stole, can_steal}
use supernova_classic_farm.Steal.Fairness.{IsFair, Raided, Raided-IsFair, Raided-harvest}

abbrev ripe : Plot
ripe = record (empty_plot 3) {
  state = PlotState.mature;
  crop_item_id = 201;
  base_yield = 20;
  steal_quantity = 2;
  max_steal_times = 2;
  protected_owner_yield = 10;
}

abbrev robbed_once : Plot
robbed_once = stolen_plot ripe 7

abbrev robbed_twice : Plot
robbed_twice = stolen_plot robbed_once 8

ripe-IsFair : IsFair ripe
unfolding empty_plot
ripe-IsFair = record {
  protected = omega arith;
  total = refl;
  times = omega arith;
  counted = refl;
  once = tt;
  yield_range = omega arith;
  times_range = omega arith;
}

steal_first : steal ripe 7 201 ≡ some robbed_once
unfolding steal can_steal empty_plot visitor_already_stole
steal_first = refl

steal_second : steal robbed_once 8 201 ≡ some robbed_twice
unfolding steal can_steal stolen_plot empty_plot visitor_already_stole
steal_second = refl

steal_again : steal robbed_twice 9 201 ≡ none
unfolding steal can_steal stolen_plot empty_plot
steal_again = refl

raids : Raided ripe robbed_twice
raids = Raided.robbed ripe robbed_once robbed_twice 7 201 refl steal_first (
    Raided.robbed robbed_once robbed_twice robbed_twice 8 201 refl steal_second
      (Raided.unharmed robbed_twice))

Raided-IsFair_example : IsFair robbed_twice
Raided-IsFair_example = Raided-IsFair ripe robbed_twice raids ripe-IsFair

Raided-harvest_example :
    (harvested_quantity robbed_twice + robbed_twice.stolen_quantity ≡ ripe.base_yield)
    × (ripe.protected_owner_yield ≤ harvested_quantity robbed_twice)
Raided-harvest_example = Raided-harvest ripe robbed_twice raids ripe-IsFair
