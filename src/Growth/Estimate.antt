-- ===== src/Growth/Estimate.antt =====
-- The estimated time of maturity (`estimatePlotMatureAtMS` of server/internal/player/growth.go)
-- is the first millisecond at which the simulated growth has reached what remains.
use supernova_classic_farm.Base.{
  ℕ, zero, suc, ◌+◌, ◌-◌, ◌*◌, ◌/◌, ◌%◌, ◌≤◌, ◌<◌, ◌≡◌, refl, ap, ◌∙◌, inl, inr, Option, none, some,
  List, [], ◌∷◌, ◌++◌, arith, ok, err, ◌>>=◌, >>=-eq-ok, leb, ◌==◌, In, if◌then◌else◌, Bool-cases,
  leb→le, leb_false→lt, max_int64,
}
use supernova_classic_farm.Base.Sort.{IsSorted, All-In, sort-IsSorted, sort-In}
use supernova_classic_farm.Plot.{TimedEffect, Plot}
use supernova_classic_farm.Growth.{
  GrowthError, effective_rate_scaled6, add_growth_duration, boundary_after, later_boundaries, walk,
  remaining_growth, estimate_plot_mature_at_ms,
}
use supernova_classic_farm.Growth.Simulation.{simulate, simulate_append}
use supernova_classic_farm.Growth.Segments.{
  IsEdge, IsBoundary, NoBoundary, effective_rate_constant, simulate_constant,
}
use supernova_classic_farm.Growth.Boundaries.{In-append_left, In-append_right}

-- From `total` at `cursor`, `remaining` more is reached at `goal_ms` and not one millisecond
-- before: after `m` milliseconds it is `g`, still short, and the next one brings `r`.
pub record Reaches (plot : Plot) (total cursor remaining goal_ms : ℕ) : Type 0 where
  pub m : ℕ
  pub g : ℕ
  pub r : ℕ
  pub goal : goal_ms ≡ cursor + suc m
  pub before : simulate plot total cursor m ≡ ok g
  pub short : g < total + remaining
  pub rate : effective_rate_scaled6 plot (cursor + m) ≡ ok r
  pub reached : total + remaining ≤ g + r

unfoldable pub ceiling : ℕ → ℕ → ℕ
ceiling remaining rate = remaining / rate + (if remaining % rate == 0 then 0 else 1)

ceiling_parts :
    (q m remaining rate : ℕ)
    → q * rate + m ≡ remaining
    → m < rate
    → 0 < remaining
    → (d : ℕ) × (q + (if m == 0 then 0 else 1) ≡ suc d)
      × (d * rate < remaining)
      × (remaining ≤ d * rate + rate)
ceiling_parts zero m remaining rate e lt p = (0, ground arith, ground arith, ground arith)
ceiling_parts (suc q) zero remaining rate e lt p = (q, omega arith, omega arith, omega arith)
ceiling_parts (suc q) (suc m) remaining rate e lt p =
    (suc q, ground arith, omega arith, omega arith)

pub ceiling_bounds :
    (remaining rate : ℕ)
    → 0 < rate
    → 0 < remaining
    → (d : ℕ) × (ceiling remaining rate ≡ suc d)
      × (d * rate < remaining)
      × (remaining ≤ d * rate + rate)
unfolding ceiling
ceiling_bounds remaining rate p q =
    ceiling_parts (remaining / rate) (remaining % rate) remaining rate (grind arith) (grind arith) q

add_growth_duration-eq-ok :
    (from_ms remaining rate : ℕ) {goal : ℕ}
    → add_growth_duration from_ms remaining rate ≡ ok goal
    → (0 < rate) × (goal ≡ from_ms + ceiling remaining rate) × (goal ≤ max_int64)
unfolding add_growth_duration ceiling
add_growth_duration-eq-ok from_ms remaining rate h = ground arith

-- Growth at one rate up to the goal.
duration-Reaches :
    (plot : Plot) (total cursor remaining rate goal limit : ℕ)
    → 0 < remaining
    → add_growth_duration cursor remaining rate ≡ ok goal
    → ((d : ℕ) → d * rate < remaining → cursor + d < limit)
    → ((k : ℕ) → cursor ≤ k → k < limit → effective_rate_scaled6 plot k ≡ ok rate)
    → Reaches plot total cursor remaining goal
duration-Reaches plot total cursor remaining rate goal limit p h fits same =
    let (pos_rate, eq, _) = add_growth_duration-eq-ok cursor remaining rate h in
    let (d, ed, lo, hi) = ceiling_bounds remaining rate pos_rate p in
    record {
      m = d;
      g = total + d * rate;
      r = rate;
      goal = omega arith;
      before =
          simulate_constant plot total cursor d rate
            (λ k kl kh. same k kl (let q = fits d lo in omega arith));
      short = omega arith;
      rate = same (cursor + d) (omega arith) (fits d lo);
      reached = omega arith;
    }

-- Every change of the rate after `cursor` is among the sorted `rest`.
abbrev Covers : Plot → ℕ → List ℕ → Type 0
Covers plot cursor rest = (b : ℕ) → IsBoundary plot b → cursor < b → In b rest

Covers-skip :
    (plot : Plot) (cursor boundary : ℕ) (rest : List ℕ)
    → Covers plot cursor (boundary ∷ rest)
    → boundary ≤ cursor
    → Covers plot cursor rest
Covers-skip plot cursor boundary rest cover le b h lt = pick (cover b h lt)
  where
    pick : In b (boundary ∷ rest) → In b rest
    pick (inl e) = absurd (omega arith)
    pick (inr m) = m

Covers-clear :
    (plot : Plot) (cursor boundary : ℕ) (rest : List ℕ)
    → IsSorted (boundary ∷ rest)
    → Covers plot cursor (boundary ∷ rest)
    → NoBoundary plot cursor boundary
Covers-clear plot cursor boundary rest sorted cover b h lo hi = refute (cover b h lo)
  where
    refute : In b (boundary ∷ rest) → ⊥
    refute (inl e) = omega arith
    refute (inr m) = let p = All-In (λ y. boundary ≤ y) b rest sorted.0 m in omega arith

-- An interval that falls short, followed by the rest.
Reaches-later :
    (plot : Plot) (total cursor boundary remaining capacity goal : ℕ)
    → cursor ≤ boundary
    → simulate plot total cursor (boundary - cursor) ≡ ok (total + capacity)
    → capacity < remaining
    → Reaches plot (total + capacity) boundary (remaining - capacity) goal
    → Reaches plot total cursor remaining goal
Reaches-later plot total cursor boundary remaining capacity goal le first less reach = record {
  m = (boundary - cursor) + reach.m;
  g = reach.g;
  r = reach.r;
  goal = (let q = reach.goal in omega arith);
  before =
      simulate_append plot total cursor (boundary - cursor) reach.m _ refl
      ∙ rw first (ap (λ t. simulate plot (total + capacity) t reach.m) there ∙ reach.before);
  short = (let q = reach.short in omega arith);
  rate = ap (effective_rate_scaled6 plot) there' ∙ reach.rate;
  reached = (let q = reach.reached in omega arith);
}
  where
    there : cursor + (boundary - cursor) ≡ boundary
    there = omega arith

    there' : cursor + ((boundary - cursor) + reach.m) ≡ boundary + reach.m
    there' = omega arith

advance_full :
    (plot : Plot) (total cursor boundary rate : ℕ)
    → cursor ≤ boundary
    → NoBoundary plot cursor boundary
    → effective_rate_scaled6 plot cursor ≡ ok rate
    → simulate plot total cursor (boundary - cursor) ≡ ok (total + (boundary - cursor) * rate)
advance_full plot total cursor boundary rate le clear h =
    simulate_constant plot total cursor (boundary - cursor) rate
      (λ k lo hi. effective_rate_constant plot cursor boundary k clear lo (omega arith) ∙ h)

below_limit :
    (d rate remaining span : ℕ) → d * rate < remaining → remaining ≤ span * rate → d < span
below_limit d rate remaining span p q = grind arith

le-mul : (n rate : ℕ) → 0 < rate → n ≤ n * rate
le-mul n rate p = grind arith

-- The last interval, in which the goal is reached before the next boundary.
last-Reaches :
    (plot : Plot) (total cursor boundary remaining rate : ℕ) {goal : ℕ}
    → NoBoundary plot cursor boundary
    → cursor ≤ boundary
    → effective_rate_scaled6 plot cursor ≡ ok rate
    → 0 < remaining
    → remaining ≤ (boundary - cursor) * rate
    → add_growth_duration cursor remaining rate ≡ ok goal
    → Reaches plot total cursor remaining goal
last-Reaches plot total cursor boundary remaining rate {goal} clear le e p fits h =
    duration-Reaches plot total cursor remaining rate goal boundary p h
      (λ d lo. let q = below_limit d rate remaining (boundary - cursor) lo fits in omega arith)
      (λ k lo hi. effective_rate_constant plot cursor boundary k clear lo hi ∙ e)

pub walk-Reaches :
    (plot : Plot) (total cursor remaining : ℕ) (rest : List ℕ) {goal : ℕ}
    → IsSorted rest
    → Covers plot cursor rest
    → 0 < remaining
    → walk plot cursor remaining rest ≡ ok goal
    → Reaches plot total cursor remaining goal
unfolding walk
walk-Reaches plot total cursor remaining [] {goal} sorted cover p h =
    let (rate, e, h') = >>=-eq-ok (effective_rate_scaled6 plot cursor) _ h in
    let (pos_rate, _, _) = add_growth_duration-eq-ok cursor remaining rate h' in
    last-Reaches plot total cursor (cursor + remaining) remaining rate
      (λ b edge lo hi. cover b edge lo) (omega arith) e p
      (let same : cursor + remaining - cursor ≡ remaining = omega arith in
        rw same (le-mul remaining rate pos_rate))
      h'
walk-Reaches plot total cursor remaining (boundary ∷ rest) {goal} sorted cover p h =
    elim (Bool-cases (leb boundary cursor)) [
      | inl e ↦
          walk-Reaches plot total cursor remaining rest sorted.1
            (Covers-skip plot cursor boundary rest cover (leb→le boundary cursor e)) p
            (rw (e, walk) at h)
      | inr e ↦
          (let lt = leb_false→lt boundary cursor e in
            let (rate, er, h') =
              >>=-eq-ok (effective_rate_scaled6 plot cursor) _ (rw (e, walk) at h) in
            let clear = Covers-clear plot cursor boundary rest sorted cover in
            elim (Bool-cases (leb remaining ((boundary - cursor) * rate))) [
              | inl c ↦
                  last-Reaches plot total cursor boundary remaining rate clear (omega arith) er p
                    (leb→le _ _ c) (rw c at h')
              | inr c ↦
                  (let less = leb_false→lt remaining ((boundary - cursor) * rate) c in
                    Reaches-later plot total cursor boundary remaining ((boundary - cursor) * rate)
                      goal (omega arith)
                      (advance_full plot total cursor boundary rate (omega arith) clear er) less
                      (walk-Reaches plot (total + (boundary - cursor) * rate) boundary
                        (remaining - (boundary - cursor) * rate) rest sorted.1
                        (Covers-skip plot boundary boundary rest
                          (λ b edge lo. cover b edge (omega arith)) (omega arith))
                        (omega arith) (rw c at h')))
            ])
    ]

later_boundaries-In :
    (effect : Option TimedEffect) (s b : ℕ)
    → IsEdge effect b
    → s < b
    → In b (later_boundaries effect s)
later_boundaries-In none s b h lo = absurd h
later_boundaries-In (some effect) s b (inl h) lo =
    unfold later_boundaries in
    In-append_left b (boundary_after effect.start_at_ms s) (boundary_after effect.end_at_ms s)
      (rw (← h) (unfold boundary_after in ground arith))
later_boundaries-In (some effect) s b (inr h) lo =
    unfold later_boundaries in
    In-append_right b (boundary_after effect.start_at_ms s) (boundary_after effect.end_at_ms s)
      (rw (← h) (unfold boundary_after in ground arith))

-- The estimate of the time of maturity from `from_ms` on is exact: simulated from there one
-- millisecond after another, the growth is short of what remains until the last millisecond
-- before the estimate, and has reached it at the estimate.
pub estimate-Reaches :
    (plot : Plot) (from_ms : ℕ) {goal : ℕ}
    → estimate_plot_mature_at_ms plot from_ms ≡ ok goal
    → Reaches plot 0 from_ms (remaining_growth plot) goal
unfolding estimate_plot_mature_at_ms
estimate-Reaches plot from_ms h = elim (Bool-cases (remaining_growth plot == 0)) [
  | inl e ↦ absurd (impossible (rw e at h))
  | inr e ↦
      walk-Reaches plot 0 from_ms (remaining_growth plot) _ (sort-IsSorted _)
        (λ b edge lo. sort-In b _ (cover b edge lo)) (ground arith) (rw e at h)
]
  where
    impossible :
        {goal : ℕ} → (◌>>=◌ {A = Unit {0}} (err GrowthError.no_remaining) (λ _. ok 0)) ≡ ok goal → ⊥
    impossible q = cc

    cover :
        (b : ℕ)
        → IsBoundary plot b
        → from_ms < b
        → In b (
            later_boundaries plot.fertilizer_effect from_ms
            ++ later_boundaries plot.pest_effect from_ms)
    cover b (inl edge) lo =
        In-append_left b _ _ (later_boundaries-In plot.fertilizer_effect from_ms b edge lo)
    cover b (inr edge) lo =
        In-append_right b _ _ (later_boundaries-In plot.pest_effect from_ms b edge lo)
