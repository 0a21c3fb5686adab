-- ===== src/Growth/Maturity.antt =====
-- When a plot becomes mature (`settleGrowingPlot` and the estimate that
-- `materializeDueMaturities` compares with the clock, server/internal/player/growth.go).
use supernova_classic_farm.Base.{
  ℕ, ◌≤◌, ◌≡◌, ◌↔◌, inl, inr, Bool, true, false, arith, Result, ok, err, Result-cases, leb,
  Bool-cases, leb→le, leb_false→lt,
}
use supernova_classic_farm.Plot.{Plot}
use supernova_classic_farm.Growth.{
  GrowthError, remaining_growth, estimate_plot_mature_at_ms, growth_between, is_growing,
  growing_fields_invalid, max_int64_of, estimated, apply_growth, settle_growing_plot,
}
use supernova_classic_farm.Growth.Settle.{growth_between-estimate}
use supernova_classic_farm.Growth.Resettle.{settle_valid}

estimated-false :
    (plot : Plot) (r : Result GrowthError ℕ) {after : Plot} {matured : Bool}
    → estimated plot r ≡ (after, ok matured)
    → matured ≡ false
unfolding estimated
estimated-false plot (err e) h = cc
estimated-false plot (ok estimate) h = cc

apply_growth-mature :
    (plot : Plot) (now_ms delta : ℕ) {after : Plot} {matured : Bool}
    → apply_growth plot now_ms (ok delta) ≡ (after, ok matured)
    → (matured ≡ true) ↔ (remaining_growth plot ≤ delta)
unfolding apply_growth
apply_growth-mature plot now_ms delta {after} {matured} h =
    elim (Bool-cases (leb (remaining_growth plot) delta)) [
      | inl e ↦ (let h' = (rw e at h) in (λ _. leb→le _ _ e, λ _. cc))
      | inr e ↦
          (let no : matured ≡ false = estimated-false _ _ (rw e at h) in
            (
              λ yes. absurd (let z = yes in cc),
              λ le. absurd (let lt = leb_false→lt _ _ e in omega arith),
            ))
    ]

apply_growth-err :
    (plot : Plot) (now_ms : ℕ) (e : GrowthError) {after : Plot} {matured : Bool} {C : Type 0}
    → apply_growth plot now_ms (err e) ≡ (after, ok matured)
    → C
unfolding apply_growth
apply_growth-err plot now_ms e h = cc

-- A growing plot with valid fields whose estimate was computed at its last settlement is settled
-- at a time not before that. If this does not fail, the plot becomes mature exactly if the
-- estimate has been reached: it is never mature before, and skipping it until then misses
-- nothing.
pub settle-mature :
    (plot : Plot) (now_ms goal : ℕ) {after : Plot} {matured : Bool}
    → is_growing plot.state ≡ true
    → growing_fields_invalid plot ≡ false
    → plot.last_settled_at_ms ≤ now_ms
    → estimate_plot_mature_at_ms plot plot.last_settled_at_ms ≡ ok goal
    → settle_growing_plot plot now_ms ≡ (after, ok matured)
    → (matured ≡ true) ↔ (goal ≤ now_ms)
settle-mature plot now_ms goal {after} {matured} growing valid le estimate h =
    let now : max_int64_of now_ms plot.last_settled_at_ms ≡ now_ms =
      (unfold max_int64_of in ground arith) in
    let applied : apply_growth plot now_ms (growth_between plot plot.last_settled_at_ms now_ms)
        ≡ (after, ok matured) =
      (rw (settle_valid plot now_ms growing valid, now) at h) in
    elim (Result-cases (growth_between plot plot.last_settled_at_ms now_ms)) [
      | inr (e, failed) ↦ absurd (apply_growth-err plot now_ms e (rw failed at applied))
      | inl (delta, grown) ↦
          (let (to, from) = apply_growth-mature plot now_ms delta (rw grown at applied) in
            let (due, back) =
              growth_between-estimate plot plot.last_settled_at_ms now_ms le estimate grown in
            (λ yes. due (to yes), λ reached. from (back reached)))
    ]
