-- ===== src/Maturity/Tests.antt =====
-- An example for the settlement of due plots: at time 20, one plot has been due since 15 by an
-- estimate that is too early, and is given a new one; another has ripened.
use supernova_classic_farm.Base.Sort.{sort}
use supernova_classic_farm.Base.Bytes.{hex_encode}
use supernova_classic_farm.Steal.{can_steal}
use supernova_classic_farm.Player.Views.{format_uuid_bytes, plot_view, effect_view}
use supernova_classic_farm.Base.{ℕ, ◌≡◌, refl, none, some, Option, List, [], ◌∷◌}
use supernova_classic_farm.Base.Int.{pos, ◌+ℤ◌}
use supernova_classic_farm.Base.Map.{lookup, insert}
use supernova_classic_farm.Plot.{PlotState, Plot, empty_plot}
use supernova_classic_farm.Wire.{ChapterStatus}
use supernova_classic_farm.Player.{State}
use supernova_classic_farm.Growth.{
  GrowthError, boundary_within, growth_between, remaining_growth, checked_rate, settle_growing_plot,
  effective_rate_scaled6, sum_segments, apply_growth, growth_boundaries, grown_plot, estimated,
  max_int64_of, expire, matured_plot, boundary_after, growing_fields_invalid, add_modifier,
  estimate_plot_mature_at_ms, walk, add_growth_duration, later_boundaries, advance,
  inner_boundaries,
}
use supernova_classic_farm.Maturity.{
  MaturityEvent, materialize_due_maturities, materialize_plot, materialize_plots, settled,
}
use supernova_classic_farm.Maturity.Due.{IsPending, materialize_due_maturities-IsPending}

abbrev slow : Plot
slow = record (empty_plot 1) {
  state = PlotState.growing;
  planted_at_ms = 10;
  last_settled_at_ms = 10;
  maturity_value_scaled9 = pos 100;
  base_growth_rate_scaled6 = pos 2;
  estimated_mature_at_ms = some 15;
}

abbrev fast : Plot
fast = record (empty_plot 2) {
  state = PlotState.growing;
  planted_at_ms = 10;
  last_settled_at_ms = 10;
  maturity_value_scaled9 = pos 10;
  base_growth_rate_scaled6 = pos 2;
  estimated_mature_at_ms = some 15;
}

abbrev field : State ℕ
field = record {
  player_id = 9;
  owner_epoch = 1;
  player_seq = 5;
  checkpoint_revision = 8;
  coins = 100;
  inventory = [];
  plots = (2, fast) ∷ (1, slow) ∷ [];
  chapter_id = 1;
  chapter_config_version = 2;
  chapter = ChapterStatus.in_progress;
  chapter_activated_at_ms = 0;
  tasks = [];
  config_version = 2;
  created_at_ms = 0;
  updated_at_ms = 0;
  recent_results = [];
  pending_outbox = [];
  career = none;
  crop_compendium = none;
}

abbrev settled_field : State ℕ × List MaturityEvent × Option GrowthError
settled_field = materialize_due_maturities field 20

abbrev resettled : Plot
resettled = record slow {
  settled_growth_value_scaled9 = pos 20;
  last_settled_at_ms = 20;
  estimated_mature_at_ms = some 60;
}

field-settles : materialize_due_maturities field 20 ≡ (settled_field.0, settled_field.1, none)
unfolding materialize_due_maturities materialize_plots sort materialize_plot lookup settled
    settle_growing_plot growing_fields_invalid empty_plot apply_growth growth_between max_int64_of
    sum_segments growth_boundaries advance effective_rate_scaled6 remaining_growth estimated
    hex_encode ◌+ℤ◌ insert add_growth_duration add_modifier boundary_after boundary_within
    checked_rate estimate_plot_mature_at_ms expire grown_plot inner_boundaries later_boundaries
    matured_plot walk effect_view format_uuid_bytes plot_view can_steal
field-settles = refl

field-kept : lookup 1 settled_field.0.plots ≡ some resettled
unfolding materialize_due_maturities lookup materialize_plots sort materialize_plot settled
    settle_growing_plot growing_fields_invalid empty_plot apply_growth growth_between max_int64_of
    sum_segments growth_boundaries advance effective_rate_scaled6 remaining_growth estimated
    hex_encode ◌+ℤ◌ insert add_growth_duration add_modifier boundary_after boundary_within
    checked_rate estimate_plot_mature_at_ms expire grown_plot inner_boundaries later_boundaries
    matured_plot walk effect_view format_uuid_bytes plot_view can_steal
field-kept = refl

materialize_due_maturities-IsPending_example : IsPending 20 resettled
materialize_due_maturities-IsPending_example =
    materialize_due_maturities-IsPending field 20 1 resettled field-settles field-kept
