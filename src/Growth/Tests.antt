-- ===== src/Growth/Tests.antt =====
-- Examples for the growth of a crop: a plot of rate 2 with a fertilizer of 1 from 15 to 25.
use supernova_classic_farm.Base.{
  ◌≤◌, ◌≡◌, refl, ◌↔◌, true, false, none, some, [], arith, ok, ◌>>=◌, ◌+◌,
}
use supernova_classic_farm.Base.Int.{pos, ◌+ℤ◌}
use supernova_classic_farm.Plot.{PlotState, EffectKind, Plot, empty_plot}
use supernova_classic_farm.Growth.{
  effective_rate_scaled6, growth_between, growth_boundaries, remaining_growth, walk,
  add_growth_duration, estimate_plot_mature_at_ms, is_growing, growing_fields_invalid,
  settle_growing_plot, max_int64_of, matured_plot, grown_plot, apply_growth, estimated, advance,
  sum_segments,
}
use supernova_classic_farm.Growth.Simulation.{simulate}
use supernova_classic_farm.Growth.Boundaries.{growth_between-simulate, growth_between_additive}
use supernova_classic_farm.Growth.Estimate.{Reaches, estimate-Reaches}
use supernova_classic_farm.Growth.Settle.{growth_between-estimate}
use supernova_classic_farm.Growth.Resettle.{SameOutcome, settle_twice}
use supernova_classic_farm.Growth.Maturity.{settle-mature}
use supernova_classic_farm.Base.Sort.{sort}

abbrev fertilized : Plot
fertilized = record (empty_plot 2) {
  state = PlotState.growing;
  planted_at_ms = 10;
  last_settled_at_ms = 10;
  maturity_value_scaled9 = pos 100;
  base_growth_rate_scaled6 = pos 2;
  base_yield = 20;
  estimated_mature_at_ms = some 55;
  fertilizer_effect = some (record {
    effect_instance_id = [];
    effect_kind = EffectKind.fertilizer;
    effect_item_or_pest_id = 1;
    source_player_id = none;
    config_version = 2;
    modifier = some (pos 1);
    start_at_ms = 15;
    end_at_ms = 25;
  });
}

fertilized_growth : growth_between fertilized 10 60 ≡ ok 110
unfolding growth_between growth_boundaries empty_plot sum_segments sort advance
    effective_rate_scaled6 ◌+ℤ◌
fertilized_growth = refl

fertilized_estimate : estimate_plot_mature_at_ms fertilized 10 ≡ ok 55
unfolding estimate_plot_mature_at_ms empty_plot walk sort effective_rate_scaled6 ◌+ℤ◌
    add_growth_duration
fertilized_estimate = refl

growth_between-simulate_example : growth_between fertilized 10 60 ≡ simulate fertilized 0 10 50
growth_between-simulate_example = growth_between-simulate fertilized 10 60 (omega arith)

growth_between_additive_example : growth_between fertilized 10 60 ≡ (
    growth_between fertilized 10 20 >>= λ first.
    growth_between fertilized 20 60 >>= λ second. ok (first + second))
growth_between_additive_example =
    growth_between_additive fertilized 10 20 60 (omega arith) (omega arith)

estimate-Reaches_example : Reaches fertilized 0 10 (remaining_growth fertilized) 55
estimate-Reaches_example = estimate-Reaches fertilized 10 fertilized_estimate

growth_between-estimate_example : (remaining_growth fertilized ≤ 110) ↔ (55 ≤ 60)
growth_between-estimate_example =
    growth_between-estimate fertilized 10 60 (omega arith) fertilized_estimate fertilized_growth

fertilized-growing : is_growing fertilized.state ≡ true
fertilized-growing = refl

fertilized-valid : growing_fields_invalid fertilized ≡ false
unfolding growing_fields_invalid empty_plot
fertilized-valid = refl

fertilized-settled : fertilized.last_settled_at_ms ≤ 60
fertilized-settled = omega arith

fertilized-mature : settle_growing_plot fertilized 60 ≡ (matured_plot fertilized 60, ok true)
unfolding settle_growing_plot apply_growth growth_between growth_boundaries empty_plot max_int64_of
    growing_fields_invalid sum_segments sort advance effective_rate_scaled6 ◌+ℤ◌ remaining_growth
fertilized-mature = refl

settle-mature_example : (true ≡ true) ↔ (55 ≤ 60)
settle-mature_example =
    settle-mature fertilized 60 55 fertilized-growing fertilized-valid fertilized-settled
      fertilized_estimate fertilized-mature

abbrev settled_at_20 : Plot
settled_at_20 = record fertilized { settled_growth_value_scaled9 = pos 25; last_settled_at_ms = 20 }

fertilized-settles : settle_growing_plot fertilized 20 ≡ (settled_at_20, ok false)
unfolding settle_growing_plot apply_growth growth_between growth_boundaries empty_plot max_int64_of
    growing_fields_invalid sum_segments sort advance effective_rate_scaled6 ◌+ℤ◌ remaining_growth
    estimated estimate_plot_mature_at_ms grown_plot walk add_growth_duration
fertilized-settles = refl

settle_twice_example :
    SameOutcome (settle_growing_plot settled_at_20 60) (settle_growing_plot fertilized 60)
settle_twice_example = settle_twice fertilized 20 60 (omega arith) fertilized-settles
