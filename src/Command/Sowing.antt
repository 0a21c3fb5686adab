-- ===== src/Command/Sowing.antt =====
-- The plot and the estimate that a planting writes (server/internal/player/plant.go and growth.go).
use supernova_classic_farm.Base.{
  ℕ, ◌+◌, ◌≤◌, ◌≡◌, refl, sym, ap, ◌∙◌, true, false, ◌||◌, none, some, [], Bool, Result, ◌>>◌, suc,
  ◌<◌, ◌*◌, arith, ok, ok_unique,
}
use supernova_classic_farm.Base.Int.{ℤ, pos, negsuc, pos_part, leb_ℤ}
use supernova_classic_farm.Plot.{PlotState, Plot}
use supernova_classic_farm.Growth.{GrowthError, fail_if, estimate_mature_at_ms}
use supernova_classic_farm.Growth.Estimate.{ceiling, ceiling_bounds}
use supernova_classic_farm.Config.{CropConfig}
use supernova_classic_farm.Command.Plant.{planted_plot}

-- The estimate is the first full millisecond at which the crop's rate, held from `now_ms` on,
-- reaches its maturity value.
pub record IsDue (now_ms : ℕ) (maturity_value growth_rate : ℤ) (estimate : ℕ) : Type 0 where
  pub duration : ℕ
  pub value : ℕ
  pub rate : ℕ
  pub estimated : estimate ≡ now_ms + duration
  pub positive_value : maturity_value ≡ pos value
  pub positive_rate : growth_rate ≡ pos rate
  pub enough : value ≤ duration * rate
  pub not_before : (0 < duration) × (duration * rate < value + rate)

passed_fail :
    {A : Type 0} (b : Bool) (e : GrowthError) (rest : Result GrowthError A) {a : A}
    → (fail_if b e >> rest) ≡ ok a
    → (b ≡ false) × (rest ≡ ok a)
passed_fail true e rest h = cc
passed_fail false e rest h = (refl, h)

-- A number that is not at most 0.
positive_part :
    (z : ℤ) → leb_ℤ z (pos 0) ≡ false → (n : ℕ) × (z ≡ pos n) × (0 < n) × (pos_part z ≡ n)
positive_part (pos n) h = (n, refl, ground arith, refl)
positive_part (negsuc n) h = absurd (ground arith)

both_positive :
    (z w : ℤ)
    → (leb_ℤ z (pos 0) || leb_ℤ w (pos 0)) ≡ false
    → (leb_ℤ z (pos 0) ≡ false) × (leb_ℤ w (pos 0) ≡ false)
both_positive z w h = or_false (leb_ℤ z (pos 0)) (leb_ℤ w (pos 0)) h
  where
    or_false : (a b : Bool) → (a || b) ≡ false → (a ≡ false) × (b ≡ false)
    or_false true b h = cc
    or_false false b h = (refl, h)

round_up :
    (d value rate : ℕ)
    → d * rate < value
    → value ≤ d * rate + rate
    → (value ≤ suc d * rate) × (0 < suc d) × (suc d * rate < value + rate)
round_up d value rate low high = (omega arith, omega arith, omega arith)

pub estimate_mature_at_ms-IsDue :
    (now_ms : ℕ) (maturity_value growth_rate : ℤ) {estimate : ℕ}
    → estimate_mature_at_ms now_ms maturity_value growth_rate ≡ ok estimate
    → IsDue now_ms maturity_value growth_rate estimate
unfolding estimate_mature_at_ms ceiling
estimate_mature_at_ms-IsDue now_ms maturity_value growth_rate {estimate} h =
    let (signs, h1) =
      passed_fail (leb_ℤ maturity_value (pos 0) || leb_ℤ growth_rate (pos 0)) _ _ h in
    let (value_sign, rate_sign) = both_positive maturity_value growth_rate signs in
    let (value, v, some_value, part_v) = positive_part maturity_value value_sign in
    let (rate, r, some_rate, part_r) = positive_part growth_rate rate_sign in
    let (_, h2) = passed_fail _ _ _ h1 in
    let (d, eq, low, high) = ceiling_bounds value rate some_rate some_value in
    let (enough, positive, least) = round_up d value rate low high in
    let sum : estimate ≡ now_ms + ceiling value rate =
      sym (ok_unique (ok _) refl h2)
      ∙ ap (λ n. now_ms + ceiling n (pos_part growth_rate)) part_v
      ∙ ap (λ n. now_ms + ceiling value n) part_r in
    record {
      duration = suc d;
      value = value;
      rate = rate;
      estimated = sum ∙ ap (λ n. now_ms + n) eq;
      positive_value = v;
      positive_rate = r;
      enough = enough;
      not_before = (positive, least);
    }

-- A plot on which the crop was sown at `now_ms`, free of the traces of an earlier one.
pub record IsSown (before : Plot) (crop : CropConfig) (now_ms estimate : ℕ) (sown : Plot)
    : Type 0 where
  pub id : sown.id ≡ before.id
  pub state : sown.state ≡ PlotState.growing
  pub crop_id : sown.crop_id ≡ crop.crop_id
  pub crop_item_id : sown.crop_item_id ≡ crop.crop_item_id
  pub crop_config_version : sown.crop_config_version ≡ crop.config_version
  pub planted_at : sown.planted_at_ms ≡ now_ms
  pub maturity_value : sown.maturity_value_scaled9 ≡ crop.maturity_value_scaled9
  pub growth_rate : sown.base_growth_rate_scaled6 ≡ crop.base_growth_rate_scaled6
  pub base_yield : sown.base_yield ≡ crop.base_yield
  pub nothing_grown : sown.settled_growth_value_scaled9 ≡ pos 0
  pub settled_at : sown.last_settled_at_ms ≡ now_ms
  pub estimated : sown.estimated_mature_at_ms ≡ some estimate
  pub no_fertilizer : sown.fertilizer_effect ≡ none
  pub no_pest : sown.pest_effect ≡ none
  pub nothing_stolen : (sown.stolen_quantity ≡ 0) × (sown.steal_count ≡ 0)
  pub steal_quantity : sown.steal_quantity ≡ crop.steal_quantity
  pub max_steal_times : sown.max_steal_times ≡ crop.max_steal_times
  pub protected_yield : sown.protected_owner_yield ≡ crop.protected_owner_yield
  pub no_thieves : sown.steal_visitor_player_ids ≡ []

pub planted_plot-IsSown :
    (before : Plot) (crop : CropConfig) (now_ms estimate : ℕ)
    → IsSown before crop now_ms estimate (planted_plot before crop now_ms estimate)
unfolding planted_plot
planted_plot-IsSown before crop now_ms estimate = record {
  id = refl;
  state = refl;
  crop_id = refl;
  crop_item_id = refl;
  crop_config_version = refl;
  planted_at = refl;
  maturity_value = refl;
  growth_rate = refl;
  base_yield = refl;
  nothing_grown = refl;
  settled_at = refl;
  estimated = refl;
  no_fertilizer = refl;
  no_pest = refl;
  nothing_stolen = (refl, refl);
  steal_quantity = refl;
  max_steal_times = refl;
  protected_yield = refl;
  no_thieves = refl;
}
