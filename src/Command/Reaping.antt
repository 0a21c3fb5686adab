-- ===== src/Command/Reaping.antt =====
-- What a harvest adds to the inventory and the career, and the plot that it leaves
-- (server/internal/player/harvest.go).
use supernova_classic_farm.Base.{
  ℕ, ◌+◌, ◌-◌, ◌≤◌, ◌≡◌, refl, ap, ◌∙◌, true, false, not, ◌&&◌, none, some, List, ltb→lt,
  ltb_false→le, ◌<◌, ◌⊎◌, ◌%◌, arith, ok, ◌==◌, ltb, leb, if◌then◌else◌, max_uint64, Bool-cases,
  inl, inr, ok_unique, >>=-eq-ok, length,
}
use supernova_classic_farm.Base.Int.{pos}
use supernova_classic_farm.Base.Map.{lookup, read}
use supernova_classic_farm.Plot.{PlotState, Plot}
use supernova_classic_farm.Growth.{is_growing}
use supernova_classic_farm.Wire.{Payload, PayloadKind, kind_of}
use supernova_classic_farm.Config.{ConfigSnapshot}
use supernova_classic_farm.Player.{State, ensure_career, checked_add_uint64}
use supernova_classic_farm.Player.Views.{is_mature}
use supernova_classic_farm.Command.Accepted.{passed_check, found_value, accepted, not-false}
use supernova_classic_farm.Command.Stock.{restocked}
use supernova_classic_farm.Command.Harvest.{
  inventory_type_limit, inventory_stack_limit, harvested_quantity, harvested_plot, gather,
  harvest_decide, reaped_state,
}

-- What a harvest of `quantity` leaves before the plot is written back.
pub record Gathered {B : Type 0} (state gathered : State B) (plot : Plot) (quantity : ℕ)
    : Type 0 where
  pub stocked :
      (item_id : ℕ)
      → read gathered.inventory item_id ≡ (
          if plot.crop_item_id == item_id
          then read state.inventory item_id + quantity
          else read state.inventory item_id)
  pub career :
      (ensure_career gathered.career).total_harvested_crop_quantity
      ≡ (ensure_career state.career).total_harvested_crop_quantity + quantity
  pub plots : gathered.plots ≡ state.plots
  pub coins : gathered.coins ≡ state.coins
  pub player_seq : gathered.player_seq ≡ state.player_seq
  pub results : gathered.recent_results ≡ state.recent_results

checked_add_uint64-some :
    (current delta : ℕ) {next : ℕ}
    → checked_add_uint64 current delta ≡ some next
    → next ≡ current + delta
unfolding checked_add_uint64
checked_add_uint64-some current delta h = elim (Bool-cases (ltb (max_uint64 - current) delta)) [
  | inl e ↦ absurd (let h' = (rw e at h) in cc)
  | inr e ↦ (let h' = (rw e at h) in cc)
]

pub gather-Gathered :
    {B : Type 0} (state : State B) (plot : Plot) (quantity : ℕ) {gathered : State B}
    → ltb 300 (read state.inventory plot.crop_item_id + quantity) ≡ false
    → gather state plot quantity ≡ ok gathered
    → Gathered state gathered plot quantity
unfolding gather ensure_career
gather-Gathered state plot quantity {gathered} room h = elim (Bool-cases (quantity == 0)) [
  | inl e ↦ gathered_none h e
  | inr e ↦ gathered_some h e
]
  where
    gathered_none :
        gather state plot quantity ≡ ok gathered
        → (quantity == 0) ≡ true
        → Gathered state gathered plot quantity
    gathered_none q e =
        let same : state ≡ gathered = (let q' = (rw e at q) in cc) in
        let none_left : quantity ≡ 0 = ground arith in
        rw (← same, none_left)
          (record {
            stocked = λ item_id. ground arith;
            career = omega arith;
            plots = refl;
            coins = refl;
            player_seq = refl;
            results = refl;
          })

    gathered_some :
        gather state plot quantity ≡ ok gathered
        → (quantity == 0) ≡ false
        → Gathered state gathered plot quantity
    gathered_some q e =
        let (next, sum, q2) =
          found_value state
            (checked_add_uint64 (ensure_career state.career).total_harvested_crop_quantity quantity)
            _ _ (rw e at q) in
        let same = ok_unique (ok _) q2 refl in
        record {
          stocked = λ item_id.
              ap (λ s. read s.inventory item_id) same
              ∙ restocked state.inventory plot.crop_item_id item_id quantity room;
          career =
              ap (λ s. (ensure_career s.career).total_harvested_crop_quantity) same
              ∙ checked_add_uint64-some _ _ sum;
          plots = ap (λ s. s.plots) same;
          coins = ap (λ s. s.coins) same;
          player_seq = ap (λ s. s.player_seq) same;
          results = ap (λ s. s.recent_results) same;
        }

-- A plot whose crop was taken off: it needs cleanup, does not grow any more, carries no effect, and
-- is otherwise as it was.
pub record IsReaped (before reaped : Plot) : Type 0 where
  pub state : reaped.state ≡ PlotState.need_cleanup
  pub no_growth :
      (reaped.maturity_value_scaled9 ≡ pos 0)
      × (reaped.base_growth_rate_scaled6 ≡ pos 0)
      × (reaped.settled_growth_value_scaled9 ≡ pos 0)
  pub unsettled : reaped.last_settled_at_ms ≡ 0
  pub no_estimate : reaped.estimated_mature_at_ms ≡ none
  pub no_effects : (reaped.fertilizer_effect ≡ none) × (reaped.pest_effect ≡ none)
  pub rest :
      record reaped {
        state = before.state;
        maturity_value_scaled9 = before.maturity_value_scaled9;
        base_growth_rate_scaled6 = before.base_growth_rate_scaled6;
        settled_growth_value_scaled9 = before.settled_growth_value_scaled9;
        last_settled_at_ms = before.last_settled_at_ms;
        estimated_mature_at_ms = before.estimated_mature_at_ms;
        fertilizer_effect = before.fertilizer_effect;
        pest_effect = before.pest_effect;
      }
      ≡ before

pub harvested_plot-IsReaped : (before : Plot) → IsReaped before (harvested_plot before)
unfolding harvested_plot
harvested_plot-IsReaped before = record {
  state = refl;
  no_growth = (refl, refl, refl);
  unsettled = refl;
  no_estimate = refl;
  no_effects = (refl, refl);
  rest = refl;
}

-- What is harvested and what was stolen make up the yield, a uint32 that covers what was stolen.
abbrev pub IsRemainder : Plot → ℕ → Type 0
IsRemainder plot quantity =
    (quantity + plot.stolen_quantity ≡ plot.base_yield)
    ⊎ ((plot.base_yield < plot.stolen_quantity) ⊎ (4294967296 ≤ plot.base_yield))

pub harvested_quantity-IsRemainder : (plot : Plot) → IsRemainder plot (harvested_quantity plot)
unfolding harvested_quantity
harvested_quantity-IsRemainder plot = remainder plot.base_yield plot.stolen_quantity
  where
    remainder :
        (base stolen : ℕ)
        → ((base + 4294967296 - stolen) % 4294967296 + stolen ≡ base)
          ⊎ ((base < stolen) ⊎ (4294967296 ≤ base))
    remainder base stolen = elim (Bool-cases (ltb base stolen)) [
      | inl less ↦ inr (inl (ltb→lt base stolen less))
      | inr covers ↦ elim (Bool-cases (ltb base 4294967296)) [
        | inr wide ↦ inr (inr (ltb_false→le base 4294967296 wide))
        | inl fits ↦
            (let p = ltb_false→le base stolen covers in
              let q = ltb→lt base 4294967296 fits in inl (omega arith))
      ]
    ]

-- The checks that a harvest has passed, and the state that it leaves.
pub record Reaping {B : Type 0} (config : ConfigSnapshot) (now_ms plot_id : ℕ)
    (state changed : State B) (payload : Payload) : Type 0 where
  pub before : Plot
  pub gathered : State B
  pub found : lookup plot_id state.plots ≡ some before
  pub mature : is_mature before.state ≡ true
  pub room :
      ltb inventory_stack_limit
        (read state.inventory before.crop_item_id + harvested_quantity before)
      ≡ false
  pub kept : gather state before (harvested_quantity before) ≡ ok gathered
  pub same : changed ≡ reaped_state gathered plot_id (harvested_plot before) config.version now_ms
  pub told : kind_of payload ≡ PayloadKind.harvest

pub harvest-Reaping :
    {B : Type 0} (config : ConfigSnapshot) (now_ms plot_id : ℕ) (request_id : List ℕ)
    (state : State B) {changed : State B} {payload : Payload}
    → harvest_decide config now_ms plot_id request_id state ≡ ok (changed, payload)
    → Reaping config now_ms plot_id state changed payload
unfolding harvest_decide
harvest-Reaping config now_ms plot_id request_id state {changed} {payload} h =
    let (_, h1) = passed_check state (plot_id == 0) _ _ h in
    let (plot, found, h2) = found_value state (lookup plot_id state.plots) _ _ h1 in
    let (_, h3) = passed_check state (is_growing plot.state) _ _ h2 in
    let (mature, h4) = passed_check state (not (is_mature plot.state)) _ _ h3 in
    let quantity = harvested_quantity plot in
    let current = read state.inventory plot.crop_item_id in
    let (_, h5) =
      passed_check state
        (not (quantity == 0) && (current == 0 && leb inventory_type_limit (length state.inventory)))
        _ _ h4 in
    let (room, h6) = passed_check state (ltb inventory_stack_limit (current + quantity)) _ _ h5 in
    let (gathered, kept, h7) = >>=-eq-ok (gather state plot quantity) _ h6 in
    let (same, told) = accepted _ refl h7 in
    record {
      before = plot;
      gathered = gathered;
      found = found;
      mature = not-false _ mature;
      room = room;
      kept = kept;
      same = same;
      told = ap kind_of told;
    }
