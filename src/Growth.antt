-- ===== src/Growth.antt =====
-- server/internal/player/growth.go: exact fixed-point growth of a crop. A plot is settled from
-- its last settlement to the present, one interval of constant rate after another, and the time
-- at which it will mature is estimated in the same way. `*big.Int` values are exact numbers.
pub mod Simulation
pub mod Segments
pub mod Boundaries
pub mod Estimate
pub mod Settle
pub mod Resettle
pub mod Maturity
mod Tests
use supernova_classic_farm.Base.{
  ℕ, ◌+◌, ◌-◌, ◌*◌, ◌/◌, ◌%◌, Bool, true, false, not, ◌&&◌, ◌||◌, Option, none, some, List, [], ◌∷◌,
  ◌++◌, Result, ok, err, ◌>>=◌, ◌>>◌, leb, ltb, ◌==◌, if◌then◌else◌, max_int64,
}
use supernova_classic_farm.Base.Int.{ℤ, pos, negsuc, pos_part, neg_part, leb_ℤ, ltb_ℤ, ◌+ℤ◌}
use supernova_classic_farm.Base.Sort.{sort}
use supernova_classic_farm.Plot.{PlotState, TimedEffect, Plot}

pub data GrowthError : Type 0 where
  not_growing invalid_fields invalid_interval modifier_required invalid_rate : GrowthError
  no_remaining invalid_duration duration_overflow timestamp_overflow : GrowthError

-- `if cond { return ..., err }`
abbrev pub fail_if : Bool → GrowthError → Result GrowthError (Unit {0})
fail_if true e = err e
fail_if false e = ok tt

-- One round of the loop of `effectiveRateScaled6` over the two effects.
unfoldable pub add_modifier : Option TimedEffect → ℕ → ℤ → Result GrowthError ℤ
add_modifier none at_ms rate = ok rate
add_modifier (some effect) at_ms rate =
    if leb effect.start_at_ms at_ms && ltb at_ms effect.end_at_ms
    then elim effect.modifier [ none ↦ err GrowthError.modifier_required | some m ↦ ok (rate +ℤ m) ]
    else ok rate

-- `!rate.IsInt64() || rate.Sign() <= 0`; a rate that passes is positive, so it is a number.
unfoldable pub checked_rate : ℤ → Result GrowthError ℕ
checked_rate (pos n) = if ltb max_int64 n || n == 0 then err GrowthError.invalid_rate else ok n
checked_rate (negsuc n) = err GrowthError.invalid_rate

unfoldable pub effective_rate_scaled6 : Plot → ℕ → Result GrowthError ℕ
unfolding add_modifier checked_rate
effective_rate_scaled6 plot at_ms = do
  fertilized ← add_modifier plot.fertilizer_effect at_ms plot.base_growth_rate_scaled6
  rate ← add_modifier plot.pest_effect at_ms fertilized
  checked_rate rate

-- `if b > startMS && b < endMS { boundaries = append(boundaries, b) }`
unfoldable pub boundary_within : ℕ → ℕ → ℕ → List ℕ
boundary_within boundary start_ms end_ms =
    if ltb start_ms boundary && ltb boundary end_ms then boundary ∷ [] else []

-- The boundaries that one effect adds to an interval.
unfoldable pub inner_boundaries : Option TimedEffect → ℕ → ℕ → List ℕ
unfolding boundary_within
inner_boundaries none start_ms end_ms = []
inner_boundaries (some effect) start_ms end_ms =
    boundary_within effect.start_at_ms start_ms end_ms
    ++ boundary_within effect.end_at_ms start_ms end_ms

-- The body of the loop of `growthBetween` over adjacent boundaries.
unfoldable pub advance : Plot → ℕ → ℕ → ℕ → Result GrowthError ℕ
advance plot total left right =
    if leb right left
    then ok total
    else (effective_rate_scaled6 plot left >>= λ rate. ok (total + (right - left) * rate))

unfoldable pub sum_segments : Plot → ℕ → List ℕ → Result GrowthError ℕ
sum_segments plot total [] = ok total
sum_segments plot total (left ∷ []) = ok total
sum_segments plot total (left ∷ right ∷ rest) =
    advance plot total left right >>= λ next. sum_segments plot next (right ∷ rest)

unfoldable pub growth_boundaries : Plot → ℕ → ℕ → List ℕ
unfolding inner_boundaries
growth_boundaries plot start_ms end_ms = sort (
    start_ms
    ∷ end_ms
    ∷ (inner_boundaries plot.fertilizer_effect start_ms end_ms
        ++ inner_boundaries plot.pest_effect start_ms end_ms))

unfoldable pub growth_between : Plot → ℕ → ℕ → Result GrowthError ℕ
growth_between plot start_ms end_ms = do
  fail_if (ltb end_ms start_ms) GrowthError.invalid_interval
  sum_segments plot 0 (growth_boundaries plot start_ms end_ms)

-- `addGrowthDuration`: the quotient rounded up, added to a time with overflow checks.
unfoldable pub add_growth_duration : ℕ → ℕ → ℕ → Result GrowthError ℕ
add_growth_duration from_ms remaining rate = do
  fail_if (remaining == 0 || rate == 0) GrowthError.invalid_duration
  let duration = remaining / rate + (if remaining % rate == 0 then 0 else 1)
  fail_if (ltb max_int64 duration) GrowthError.duration_overflow
  fail_if (duration == 0 || ltb (max_int64 - duration) from_ms) GrowthError.timestamp_overflow
  ok (from_ms + duration)

-- `if b > fromMS { boundaries = append(boundaries, b) }`
unfoldable pub boundary_after : ℕ → ℕ → List ℕ
boundary_after boundary from_ms = if ltb from_ms boundary then boundary ∷ [] else []

-- The boundaries that one effect adds after a time.
unfoldable pub later_boundaries : Option TimedEffect → ℕ → List ℕ
unfolding boundary_after
later_boundaries none from_ms = []
later_boundaries (some effect) from_ms =
    boundary_after effect.start_at_ms from_ms ++ boundary_after effect.end_at_ms from_ms

-- The loop of `estimatePlotMatureAtMS` with what follows it.
unfoldable pub walk : Plot → ℕ → ℕ → List ℕ → Result GrowthError ℕ
walk plot cursor remaining [] =
    effective_rate_scaled6 plot cursor >>= λ rate. add_growth_duration cursor remaining rate
walk plot cursor remaining (boundary ∷ rest) = elim (leb boundary cursor) [
  | true ↦ walk plot cursor remaining rest
  | false ↦ effective_rate_scaled6 plot cursor >>= λ rate.
      (elim (leb remaining ((boundary - cursor) * rate)) [
        | true ↦ add_growth_duration cursor remaining rate
        | false ↦ walk plot boundary (remaining - (boundary - cursor) * rate) rest
      ])
]

-- `a - b` of int64 values whose difference the callers know to be in range, with `<= 0` and the
-- positive value told apart.
unfoldable pub remaining_growth : Plot → ℕ
remaining_growth plot =
    (pos_part maturity_value_scaled9 + neg_part settled_growth_value_scaled9)
    - (neg_part maturity_value_scaled9 + pos_part settled_growth_value_scaled9)
  where
    open plot use {maturity_value_scaled9, settled_growth_value_scaled9}

unfoldable pub estimate_plot_mature_at_ms : Plot → ℕ → Result GrowthError ℕ
unfolding later_boundaries remaining_growth
estimate_plot_mature_at_ms plot from_ms = do
  let remaining = remaining_growth plot
  fail_if (remaining == 0) GrowthError.no_remaining
  walk plot from_ms remaining (
      sort (
        later_boundaries plot.fertilizer_effect from_ms
        ++ later_boundaries plot.pest_effect from_ms))

-- `estimateMatureAtMS`: the estimate for a plot without effects, in int64 arithmetic.
unfoldable pub estimate_mature_at_ms : ℕ → ℤ → ℤ → Result GrowthError ℕ
estimate_mature_at_ms from_ms remaining rate = do
  fail_if (leb_ℤ remaining (pos 0) || leb_ℤ rate (pos 0)) GrowthError.invalid_duration
  let duration =
      pos_part remaining / pos_part rate
      + (if pos_part remaining % pos_part rate == 0 then 0 else 1)
  fail_if (duration == 0 || ltb (max_int64 - duration) from_ms) GrowthError.timestamp_overflow
  ok (from_ms + duration)

abbrev pub is_growing : PlotState → Bool
is_growing PlotState.growing = true
is_growing _ = false

-- The field check of `settleGrowingPlot`.
unfoldable pub growing_fields_invalid : Plot → Bool
growing_fields_invalid plot =
    leb_ℤ maturity_value_scaled9 (pos 0)
    || leb_ℤ base_growth_rate_scaled6 (pos 0)
    || ltb_ℤ settled_growth_value_scaled9 (pos 0)
    || leb_ℤ maturity_value_scaled9 settled_growth_value_scaled9
    || ltb last_settled_at_ms planted_at_ms
  where
    open plot use {
      maturity_value_scaled9, base_growth_rate_scaled6, settled_growth_value_scaled9,
      last_settled_at_ms, planted_at_ms,
    }

-- An effect is dropped once it has ended.
unfoldable pub expire : Option TimedEffect → ℕ → Option TimedEffect
expire none at_ms = none
expire (some effect) at_ms = if leb effect.end_at_ms at_ms then none else some effect

unfoldable pub max_int64_of : ℕ → ℕ → ℕ
max_int64_of left right = if ltb right left then left else right

-- The branch of `settleGrowingPlot` that makes the plot mature.
unfoldable pub matured_plot : Plot → ℕ → Plot
matured_plot plot now_ms = record plot {
  settled_growth_value_scaled9 = plot.maturity_value_scaled9;
  last_settled_at_ms = now_ms;
  state = PlotState.mature;
  estimated_mature_at_ms = none;
  fertilizer_effect = none;
  pest_effect = none;
}

-- The fields that the other branch writes before it estimates the maturity anew.
unfoldable pub grown_plot : Plot → ℕ → ℕ → Plot
unfolding expire
grown_plot plot delta now_ms = record plot {
  settled_growth_value_scaled9 = plot.settled_growth_value_scaled9 +ℤ pos delta;
  last_settled_at_ms = now_ms;
  fertilizer_effect = expire plot.fertilizer_effect now_ms;
  pest_effect = expire plot.pest_effect now_ms;
}

-- The end of `settleGrowingPlot`: on an error of the estimate the settled fields stay written.
unfoldable pub estimated : Plot → Result GrowthError ℕ → Plot × Result GrowthError Bool
estimated plot (err e) = (plot, err e)
estimated plot (ok estimate) = (record plot { estimated_mature_at_ms = some estimate }, ok false)

-- `settleGrowingPlot` after its checks, for the growth since the last settlement.
unfoldable pub apply_growth : Plot → ℕ → Result GrowthError ℕ → Plot × Result GrowthError Bool
apply_growth plot now_ms (err e) = (plot, err e)
apply_growth plot now_ms (ok delta) =
    if leb (remaining_growth plot) delta
    then (matured_plot plot now_ms, ok true)
    else (let grown = grown_plot plot delta now_ms in
        estimated grown (estimate_plot_mature_at_ms grown now_ms))

-- The plot after the call, and whether it became mature or why it could not be settled.
unfoldable pub settle_growing_plot : Plot → ℕ → Plot × Result GrowthError Bool
settle_growing_plot plot server_now_ms =
    if not (is_growing plot.state)
    then (plot, err GrowthError.not_growing)
    else if growing_fields_invalid plot
    then (plot, err GrowthError.invalid_fields)
    else (let effective_now_ms = max_int64_of server_now_ms plot.last_settled_at_ms in
        apply_growth plot effective_now_ms
          (growth_between plot plot.last_settled_at_ms effective_now_ms))
