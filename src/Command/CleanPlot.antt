-- ===== src/Command/CleanPlot.antt =====
-- `cleanPlot` of server/internal/player/clean_plot.go.
use supernova_classic_farm.Base.{
  ℕ, Bool, true, false, not, List, [], ◌∷◌, ◌++◌, ok, ◌>>=◌, ◌>>◌, ◌==◌,
}
use supernova_classic_farm.Base.Bytes.{big_endian32}
use supernova_classic_farm.Base.Map.{lookup, insert}
use supernova_classic_farm.Plot.{PlotState, empty_plot}
use supernova_classic_farm.Wire.{
  ErrorCode, failure_of, empty_patch, Payload, PayloadKind, Request, Response,
}
use supernova_classic_farm.Config.{ConfigSnapshot}
use supernova_classic_farm.Player.{State, advance_versions}
use supernova_classic_farm.Player.Views.{plot_view}
use supernova_classic_farm.Idempotency.{Decision, Codec, fingerprint_head, run}
use supernova_classic_farm.Command.{reject_if, require, failure_at}

-- The bytes that `cleanPlotFingerprint` hashes; the request is its one field, the plot ID.
unfoldable pub clean_plot_fingerprint : ℕ → Request → ℕ → List ℕ
clean_plot_fingerprint caller request plot_id =
    fingerprint_head caller request ++ big_endian32 plot_id

abbrev pub needs_cleanup : PlotState → Bool
needs_cleanup PlotState.need_cleanup = true
needs_cleanup _ = false

module _ {B : Type 0} where
  unfoldable pub clean_plot_decide : ConfigSnapshot → ℕ → ℕ → List ℕ → State B → Decision B
  clean_plot_decide config now_ms plot_id request_id state = do
    reject_if state (plot_id == 0) (failure_of ErrorCode.invalid_argument)
    plot ← require state (lookup plot_id state.plots) (failure_of ErrorCode.plot_not_found)
    reject_if state (not (needs_cleanup plot.state)) (failure_at ErrorCode.plot_state_conflict plot)
    let changed =
        advance_versions (record state { plots = insert plot_id (empty_plot plot_id) state.plots })
          config.version now_ms
    ok (
      changed,
      Payload.clean_plot_response
          (record empty_patch { plot_upserts = plot_view (empty_plot plot_id) ∷ [] }),
    )

  unfoldable pub clean_plot :
      Codec B → State B → ℕ → Request → ℕ → ConfigSnapshot → ℕ → State B × Response × Bool
  clean_plot codec state caller request plot_id config now_ms =
      run codec PayloadKind.clean_plot (clean_plot_decide config now_ms plot_id) state caller
        request (codec.sha256 (clean_plot_fingerprint caller request plot_id)) config.version now_ms
