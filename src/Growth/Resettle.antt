-- ===== src/Growth/Resettle.antt =====
-- Settling a growing plot and settling it again later comes to the same as settling it once
-- (`settleGrowingPlot` of server/internal/player/growth.go): how often a player looks at a plot
-- has no effect on its growth.
use supernova_classic_farm.Base.{
  ℕ, ◌+◌, ◌-◌, ◌*◌, ◌≤◌, ◌<◌, ◌≡◌, refl, ap, ◌∙◌, inl, inr, Bool, true, false, Option, some, List,
  [], ◌∷◌, ◌++◌, arith, Result, ok, err, ◌>>=◌, leb, ◌==◌, Bool-cases, leb_false→lt,
}
use supernova_classic_farm.Base.Int.{ℤ, pos, ◌+ℤ◌}
use supernova_classic_farm.Base.Sort.{sort}
use supernova_classic_farm.Plot.{Plot}
use supernova_classic_farm.Growth.{
  GrowthError, add_growth_duration, effective_rate_scaled6, walk, later_boundaries, fail_if,
  remaining_growth, estimate_plot_mature_at_ms, growth_between, is_growing, growing_fields_invalid,
  max_int64_of, matured_plot, grown_plot, estimated, apply_growth, settle_growing_plot,
}
use supernova_classic_farm.Growth.Boundaries.{growth_between_additive}
use supernova_classic_farm.Growth.Settle.{expire_twice, grown_growth}

-- What a settlement that leaves the plot growing has found and written.
pub record Grown (plot : Plot) (server_now_ms : ℕ) (after : Plot) : Type 0 where
  pub delta : ℕ
  pub estimate : ℕ
  pub growing : is_growing plot.state ≡ true
  pub fields : growing_fields_invalid plot ≡ false
  pub growth :
      growth_between plot plot.last_settled_at_ms
        (max_int64_of server_now_ms plot.last_settled_at_ms)
      ≡ ok delta
  pub short : delta < remaining_growth plot
  pub after_eq :
      after ≡ record (grown_plot plot delta (max_int64_of server_now_ms plot.last_settled_at_ms)) {
        estimated_mature_at_ms = some estimate;
      }
  pub estimates :
      estimate_plot_mature_at_ms
        (grown_plot plot delta (max_int64_of server_now_ms plot.last_settled_at_ms))
        (max_int64_of server_now_ms plot.last_settled_at_ms)
      ≡ ok estimate

settled_false :
    (grown : Plot) (r : Result GrowthError ℕ) {after : Plot}
    → estimated grown r ≡ (after, ok false)
    → (estimate : ℕ) × (r ≡ ok estimate)
      × (after ≡ record grown { estimated_mature_at_ms = some estimate })
unfolding estimated
settled_false grown (err e) h = cc
settled_false grown (ok estimate) h = (estimate, refl, ground arith)

apply_growth-false :
    (plot : Plot) (now_ms : ℕ) (r : Result GrowthError ℕ) {after : Plot}
    → apply_growth plot now_ms r ≡ (after, ok false)
    → (delta : ℕ) × (r ≡ ok delta)
      × (delta < remaining_growth plot)
      × (estimated
            (grown_plot plot delta now_ms)
            (estimate_plot_mature_at_ms (grown_plot plot delta now_ms) now_ms)
          ≡ (after, ok false))
unfolding apply_growth
apply_growth-false plot now_ms (err e) h = cc
apply_growth-false plot now_ms (ok delta) h =
    elim (Bool-cases (leb (remaining_growth plot) delta)) [
      | inl e ↦ absurd (let h' = (rw e at h) in cc)
      | inr e ↦ (delta, refl, leb_false→lt _ _ e, (rw e at h))
    ]

pub settle-Grown :
    (plot : Plot) (server_now_ms : ℕ) {after : Plot}
    → settle_growing_plot plot server_now_ms ≡ (after, ok false)
    → Grown plot server_now_ms after
unfolding settle_growing_plot
settle-Grown plot server_now_ms {after} h = elim (Bool-cases (is_growing plot.state)) [
  | inr e ↦ absurd (let h' = (rw e at h) in cc)
  | inl e ↦ elim (Bool-cases (growing_fields_invalid plot)) [
    | inl f ↦ absurd (let h' = (rw (e, f) at h) in cc)
    | inr f ↦
        (let (delta, growth, short, h') = apply_growth-false plot _ _ (rw (e, f) at h) in
          let (estimate, est, after_eq) = settled_false _ _ h' in
          record {
            delta = delta;
            estimate = estimate;
            growing = e;
            fields = f;
            growth = growth;
            short = short;
            after_eq = after_eq;
            estimates = est;
          })
  ]
]

-- The estimate reads a plot only through its rates and what remains.
walk_congruent :
    (plot other : Plot) (cursor remaining : ℕ) (rest : List ℕ)
    → ((k : ℕ) → effective_rate_scaled6 other k ≡ effective_rate_scaled6 plot k)
    → walk other cursor remaining rest ≡ walk plot cursor remaining rest
unfolding walk
walk_congruent plot other cursor remaining [] same =
    λ i. same cursor i >>= λ rate. add_growth_duration cursor remaining rate
walk_congruent plot other cursor remaining (boundary ∷ rest) same = λ i.
    elim (leb boundary cursor) [
      | true ↦ walk_congruent plot other cursor remaining rest same i
      | false ↦ same cursor i >>= λ rate. (elim (leb remaining ((boundary - cursor) * rate)) [
        | true ↦ add_growth_duration cursor remaining rate
        | false ↦
            walk_congruent plot other boundary (remaining - (boundary - cursor) * rate) rest same i
      ])
    ]

estimate_ignores_estimate :
    (plot : Plot) (old : Option ℕ) (from_ms : ℕ)
    → estimate_plot_mature_at_ms (record plot { estimated_mature_at_ms = old }) from_ms
      ≡ estimate_plot_mature_at_ms plot from_ms
unfolding estimate_plot_mature_at_ms
estimate_ignores_estimate plot old from_ms = λ i.
    fail_if (remaining_growth plot == 0) GrowthError.no_remaining >>= λ _.
    walk_congruent plot (record plot { estimated_mature_at_ms = old }) from_ms
      (remaining_growth plot)
      (sort (
        later_boundaries plot.fertilizer_effect from_ms
        ++ later_boundaries plot.pest_effect from_ms))
      (λ k. unfold effective_rate_scaled6 in refl) i

sum_assoc : (s : ℤ) (d d2 : ℕ) → s +ℤ pos d +ℤ pos d2 ≡ s +ℤ pos (d + d2)
unfolding ◌+ℤ◌
sum_assoc s d d2 = ground arith

-- Growing twice is growing once by the sum.
grown_twice :
    (plot : Plot) (d d2 m e : ℕ) (old : Option ℕ)
    → m ≤ e
    → grown_plot (record (grown_plot plot d m) { estimated_mature_at_ms = old }) d2 e
      ≡ record (grown_plot plot (d + d2) e) { estimated_mature_at_ms = old }
unfolding grown_plot
grown_twice plot d d2 m e old le = λ i. record (grown_plot plot (d + d2) e) {
  estimated_mature_at_ms = old;
  settled_growth_value_scaled9 = sum_assoc plot.settled_growth_value_scaled9 d d2 i;
  fertilizer_effect = expire_twice plot.fertilizer_effect m e le i;
  pest_effect = expire_twice plot.pest_effect m e le i;
}

estimated_ignores_estimate :
    (plot : Plot) (old : Option ℕ) (r : Result GrowthError ℕ)
    → ((estimated (record plot { estimated_mature_at_ms = old }) r).1 ≡ (estimated plot r).1)
      × ((b : Bool)
          → (estimated plot r).1 ≡ ok b
          → (estimated (record plot { estimated_mature_at_ms = old }) r).0 ≡ (estimated plot r).0)
unfolding estimated
estimated_ignores_estimate plot old (err e) = (refl, λ b h. cc)
estimated_ignores_estimate plot old (ok t) = (refl, λ b h. refl)

-- The first outcome reports what the second does, and leaves the same plot unless it fails.
abbrev pub SameOutcome : Plot × Result GrowthError Bool → Plot × Result GrowthError Bool → Type 0
SameOutcome (p, r) (q, s) = (r ≡ s) × ((b : Bool) → s ≡ ok b → p ≡ q)

remaining_grown :
    (plot : Plot) (d m : ℕ)
    → growing_fields_invalid plot ≡ false
    → remaining_growth (grown_plot plot d m) ≡ remaining_growth plot - d
unfolding remaining_growth grown_plot growing_fields_invalid ◌+ℤ◌
remaining_grown plot d m valid = ground arith

grown_fields :
    (plot : Plot) (d m : ℕ) (old : Option ℕ)
    → growing_fields_invalid plot ≡ false
    → d < remaining_growth plot
    → plot.last_settled_at_ms ≤ m
    → growing_fields_invalid (record (grown_plot plot d m) { estimated_mature_at_ms = old }) ≡ false
unfolding remaining_growth grown_plot growing_fields_invalid ◌+ℤ◌
grown_fields plot d m old valid short le = ground arith

module _ (plot : Plot) (d m e : ℕ) (old : Option ℕ) (valid : growing_fields_invalid plot ≡ false)
    (short : d < remaining_growth plot) (le : m ≤ e) where
  abbrev mid : Plot
  mid = record (grown_plot plot d m) { estimated_mature_at_ms = old }

  same_test : (d2 : ℕ) → leb (remaining_growth mid) d2 ≡ leb (remaining_growth plot) (d + d2)
  same_test d2 = ap (λ r. leb r d2) left ∙ ground arith
    where
      left : remaining_growth mid ≡ remaining_growth plot - d
      left = unfold remaining_growth in (unfold remaining_growth in remaining_grown plot d m valid)

  same_end :
      (d2 : ℕ)
      → SameOutcome
          (estimated (grown_plot mid d2 e) (estimate_plot_mature_at_ms (grown_plot mid d2 e) e))
          (estimated
            (grown_plot plot (d + d2) e)
            (estimate_plot_mature_at_ms (grown_plot plot (d + d2) e) e))
  same_end d2 = rw (grown_twice plot d d2 m e old le) (
      rw (estimate_ignores_estimate (grown_plot plot (d + d2) e) old e) (
        estimated_ignores_estimate (grown_plot plot (d + d2) e) old
          (estimate_plot_mature_at_ms (grown_plot plot (d + d2) e) e)))

  same_apply :
      (r : Result GrowthError ℕ)
      → SameOutcome (apply_growth mid e r) (apply_growth plot e (r >>= λ d2. ok (d + d2)))
  unfolding apply_growth
  same_apply (err x) = (refl, λ b h. cc)
  same_apply (ok d2) = elim (Bool-cases (leb (remaining_growth plot) (d + d2))) [
    | inl t ↦ rw (same_test d2) (rw t (refl, λ b h. unfold matured_plot grown_plot in refl))
    | inr t ↦ rw (same_test d2) (rw t (same_end d2))
  ]

max_later :
    (t1 t2 last : ℕ) → t1 ≤ t2 → max_int64_of t2 (max_int64_of t1 last) ≡ max_int64_of t2 last
unfolding max_int64_of
max_later t1 t2 last le = ground arith

max_le :
    (t1 t2 last : ℕ)
    → t1 ≤ t2
    → (last ≤ max_int64_of t1 last) × (max_int64_of t1 last ≤ max_int64_of t2 last)
unfolding max_int64_of
max_le t1 t2 last le = ground arith

-- The check of the state and the fields passed.
pub settle_valid :
    (plot : Plot) (t : ℕ)
    → is_growing plot.state ≡ true
    → growing_fields_invalid plot ≡ false
    → settle_growing_plot plot t
      ≡ apply_growth plot
          (max_int64_of t plot.last_settled_at_ms)
          (growth_between plot plot.last_settled_at_ms (max_int64_of t plot.last_settled_at_ms))
unfolding settle_growing_plot
settle_valid plot t g f = rw (g, f) refl

settle_mid :
    (plot : Plot) (d m e t2 : ℕ) (old : Option ℕ)
    → is_growing plot.state ≡ true
    → growing_fields_invalid plot ≡ false
    → d < remaining_growth plot
    → plot.last_settled_at_ms ≤ m
    → m ≤ e
    → max_int64_of t2 m ≡ e
    → settle_growing_plot (record (grown_plot plot d m) { estimated_mature_at_ms = old }) t2
      ≡ apply_growth
          (record (grown_plot plot d m) { estimated_mature_at_ms = old })
          e
          (growth_between plot m e)
settle_mid plot d m e t2 old g f short lo hi me =
    settle_valid (record (grown_plot plot d m) { estimated_mature_at_ms = old }) t2
      (unfold grown_plot in g) (grown_fields plot d m old f short lo)
    ∙ unfold grown_plot in
      rw me (ap (apply_growth _ e) (unfold grown_plot in grown_growth plot d m e old hi))

-- If a settlement leaves the plot growing, a later settlement of the result reports what it would
-- have reported without the earlier one: maturity, more growth or the same error. Unless it
-- reports an error, the plot is left exactly as it would be without the earlier one.
pub settle_twice :
    (plot : Plot) (t1 t2 : ℕ) {after : Plot}
    → t1 ≤ t2
    → settle_growing_plot plot t1 ≡ (after, ok false)
    → SameOutcome (settle_growing_plot after t2) (settle_growing_plot plot t2)
settle_twice plot t1 t2 {after} le h = let g = settle-Grown plot t1 h in rw (g.after_eq) (again g)
  where
    again :
        (g : Grown plot t1 after)
        → SameOutcome
            (settle_growing_plot
              (record (grown_plot plot g.delta (max_int64_of t1 plot.last_settled_at_ms)) {
                estimated_mature_at_ms = some g.estimate;
              })
              t2)
            (settle_growing_plot plot t2)
    again g =
        let last = plot.last_settled_at_ms in
        let (lo, hi) = max_le t1 t2 last le in
        let m = max_int64_of t1 last in
        let e = max_int64_of t2 last in
        rw
          (
            settle_mid plot g.delta m e t2 (some g.estimate) g.growing g.fields g.short lo hi
                (max_later t1 t2 last le),
            settle_valid plot t2 g.growing g.fields,
            growth_between_additive plot last m e lo hi,
            g.growth,
          )
          (same_apply plot g.delta m e (some g.estimate) g.fields g.short hi
            (growth_between plot m e))
