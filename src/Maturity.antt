-- ===== src/Maturity.antt =====
-- `State.materializeDueMaturities` of server/internal/player/growth.go: before each command, the
-- plots that are due are settled in the order of their IDs.
pub mod Due
mod Tests
use supernova_classic_farm.Base.{
  ℕ, ◌+◌, Bool, true, false, not, ◌||◌, Option, none, some, List, [], ◌∷◌, ◌++◌, map, Result, ok,
  err, ltb, if◌then◌else◌, u64,
}
use supernova_classic_farm.Base.Sort.{sort}
use supernova_classic_farm.Base.Map.{Map, lookup, insert}
use supernova_classic_farm.Plot.{Plot}
use supernova_classic_farm.Growth.{GrowthError, is_growing, max_int64_of, settle_growing_plot}
use supernova_classic_farm.Player.{State}
use supernova_classic_farm.Player.Views.{plot_view}
use supernova_classic_farm.Wire.{PlotView}
use supernova_classic_farm.Steal.{can_steal}

pub record MaturityEvent : Type 0 where
  pub player_id : ℕ
  pub owner_epoch : ℕ
  pub player_seq : ℕ
  pub server_time_ms : ℕ
  pub plot : PlotView
  pub stealable : Bool

-- `EstimatedMatureAtMS != nil && now < *EstimatedMatureAtMS`
abbrev pub before_estimate : Option ℕ → ℕ → Bool
before_estimate none now_ms = false
before_estimate (some estimate) now_ms = ltb now_ms estimate

abbrev pub Materialized : Type 0 → Type 0
Materialized B = State B × List MaturityEvent × Option GrowthError

abbrev pub plot_ids : Map Plot → List ℕ
plot_ids plots = sort (map (λ entry. entry.0) plots)

module _ {B : Type 0} where
  -- The end of the loop's body, for a plot that has been settled in place.
  unfoldable pub settled : State B → ℕ → ℕ → Plot × Result GrowthError Bool → Materialized B
  settled state now_ms plot_id (plot, err e) =
      (record state { plots = insert plot_id plot state.plots }, [], some e)
  settled state now_ms plot_id (plot, ok false) =
      (record state { plots = insert plot_id plot state.plots }, [], none)
  settled state now_ms plot_id (plot, ok true) =
      let player_seq = u64 (state.player_seq + 1) in
      (
        record state {
          plots = insert plot_id plot state.plots;
          player_seq = player_seq;
          checkpoint_revision = u64 (state.checkpoint_revision + 1);
          updated_at_ms = max_int64_of now_ms state.updated_at_ms;
        },
        record {
          player_id = state.player_id;
          owner_epoch = state.owner_epoch;
          player_seq = player_seq;
          server_time_ms = now_ms;
          plot = plot_view plot;
          stealable = can_steal plot;
        }
            ∷ [],
        none,
      )

  -- The loop's body.
  unfoldable pub materialize_plot : State B → ℕ → ℕ → Materialized B
  materialize_plot state now_ms plot_id = elim (lookup plot_id state.plots) [
    | none ↦ (state, [], none)
    | some plot ↦
        if not (is_growing plot.state) || before_estimate plot.estimated_mature_at_ms now_ms
        then (state, [], none)
        else settled state now_ms plot_id (settle_growing_plot plot now_ms)
  ]

  -- The first error ends the loop; what was done before it stays done.
  unfoldable pub materialize_plots : State B → ℕ → List ℕ → Materialized B
  materialize_plots state now_ms [] = (state, [], none)
  materialize_plots state now_ms (plot_id ∷ plot_ids) =
      let (next, events, failure) = materialize_plot state now_ms plot_id in
      let (last, later, failed) = materialize_plots next now_ms plot_ids in
      elim failure [ some e ↦ (next, events, some e) | none ↦ (last, events ++ later, failed) ]

  unfoldable pub materialize_due_maturities : State B → ℕ → Materialized B
  materialize_due_maturities state now_ms = materialize_plots state now_ms (plot_ids state.plots)
