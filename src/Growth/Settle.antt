-- ===== src/Growth/Settle.antt =====
-- What `settleGrowingPlot` of server/internal/player/growth.go does over time: it makes a plot
-- mature from the estimated time on and never earlier, and settling in between changes nothing.
use supernova_classic_farm.Base.{
  ℕ, zero, suc, ◌+◌, ◌-◌, ◌≤◌, ◌<◌, ◌≡◌, refl, sym, ap, ◌∙◌, inl, inr, ◌↔◌, Option, none, some,
  arith, ok, ◌>>=◌, ok_unique, leb, Bool-cases, leb→le, leb_false→lt,
}
use supernova_classic_farm.Base.Int.{ℤ}
use supernova_classic_farm.Plot.{TimedEffect, Plot}
use supernova_classic_farm.Growth.{
  add_modifier, checked_rate, effective_rate_scaled6, remaining_growth, estimate_plot_mature_at_ms,
  growth_between, expire, grown_plot,
}
use supernova_classic_farm.Growth.Simulation.{simulate, simulate_append, simulate_prefix}
use supernova_classic_farm.Growth.Boundaries.{growth_between-simulate}
use supernova_classic_farm.Growth.Estimate.{Reaches, estimate-Reaches}

-- Short of the goal before the goal's time.
Reaches-short :
    (plot : Plot) (cursor remaining goal n delta : ℕ)
    → Reaches plot 0 cursor remaining goal
    → cursor + n < goal
    → simulate plot 0 cursor n ≡ ok delta
    → delta < remaining
Reaches-short plot cursor remaining goal n delta reach lt h =
    let q = reach.goal in
    let (g', e, _, le) =
      simulate_prefix plot 0 cursor reach.m n reach.g reach.before (omega arith) in
    let same = ok_unique (simulate plot 0 cursor n) e h in let s = reach.short in omega arith

-- Past it from the goal's time on.
Reaches-reached :
    (plot : Plot) (cursor remaining goal n delta : ℕ)
    → Reaches plot 0 cursor remaining goal
    → goal ≤ cursor + n
    → simulate plot 0 cursor n ≡ ok delta
    → remaining ≤ delta
Reaches-reached plot cursor remaining goal n delta reach le h =
    let q = reach.goal in
    let (g, e, _, le_g) = simulate_prefix plot 0 cursor n (suc reach.m) delta h (omega arith) in
    let one : suc reach.m ≡ reach.m + 1 = omega arith in
    let z =
      ok_unique (simulate plot 0 cursor (reach.m + 1)) (step reach)
        (ap (simulate plot 0 cursor) (sym one) ∙ e) in
    let s = reach.reached in omega arith
  where
    step :
        (reach : Reaches plot 0 cursor remaining goal)
        → simulate plot 0 cursor (reach.m + 1) ≡ ok (reach.g + reach.r)
    step reach =
        simulate_append plot 0 cursor reach.m 1 (reach.m + 1) refl
        ∙ rw (reach.before) (unfold simulate in rw (reach.rate) refl)

-- From a time at which the plot's estimate was computed, growth up to any later time reaches what
-- remains exactly if the estimate has been reached.
pub growth_between-estimate :
    (plot : Plot) (from_ms now_ms : ℕ) {goal delta : ℕ}
    → from_ms ≤ now_ms
    → estimate_plot_mature_at_ms plot from_ms ≡ ok goal
    → growth_between plot from_ms now_ms ≡ ok delta
    → (remaining_growth plot ≤ delta) ↔ (goal ≤ now_ms)
growth_between-estimate plot from_ms now_ms {goal} {delta} le estimate growth =
    let sim = sym (growth_between-simulate plot from_ms now_ms le) ∙ growth in
    let there : from_ms + (now_ms - from_ms) ≡ now_ms = omega arith in
    (
      λ enough. elim (Bool-cases (leb goal now_ms)) [
        | inl e ↦ leb→le goal now_ms e
        | inr e ↦ absurd (
            let lt = leb_false→lt goal now_ms e in
            let short =
              Reaches-short plot from_ms (remaining_growth plot) goal (now_ms - from_ms) delta
                (estimate-Reaches plot from_ms estimate) (omega arith) sim in
            omega arith)
      ],
      λ due.
          Reaches-reached plot from_ms (remaining_growth plot) goal (now_ms - from_ms) delta
            (estimate-Reaches plot from_ms estimate) (omega arith) sim,
    )

-- An effect that has ended no longer changes the rate.
expire_rate :
    (effect : Option TimedEffect) (m t : ℕ) (rate : ℤ)
    → m ≤ t
    → add_modifier (expire effect m) t rate ≡ add_modifier effect t rate
unfolding add_modifier expire
expire_rate none m t rate le = refl
expire_rate (some effect) m t rate le = elim (Bool-cases (leb effect.end_at_ms m)) [
  | inl e ↦ rw e (let p = leb→le effect.end_at_ms m e in ground arith)
  | inr e ↦ rw e refl
]

pub expire_twice :
    (effect : Option TimedEffect) (m e : ℕ) → m ≤ e → expire (expire effect m) e ≡ expire effect e
unfolding expire
expire_twice none m e le = refl
expire_twice (some effect) m e le = ground arith

pub grown_rate :
    (plot : Plot) (delta m t : ℕ)
    → m ≤ t
    → effective_rate_scaled6 (grown_plot plot delta m) t ≡ effective_rate_scaled6 plot t
unfolding effective_rate_scaled6 grown_plot
grown_rate plot delta m t le = λ i.
    expire_rate plot.fertilizer_effect m t plot.base_growth_rate_scaled6 le i >>= λ fertilized.
    expire_rate plot.pest_effect m t fertilized le i >>= λ rate. checked_rate rate

pub simulate_congruent :
    (plot other : Plot) (total t n : ℕ)
    → ((k : ℕ) → t ≤ k → effective_rate_scaled6 other k ≡ effective_rate_scaled6 plot k)
    → simulate other total t n ≡ simulate plot total t n
unfolding simulate
simulate_congruent plot other total t zero same = refl
simulate_congruent plot other total t (suc n) same = λ i. same t (omega arith) i >>= λ rate.
    simulate_congruent plot other (total + rate) (suc t) n (λ k le. same k (omega arith)) i

-- Later growth does not depend on a settlement in between.
pub grown_growth :
    (plot : Plot) (delta m e : ℕ) (old : Option ℕ)
    → m ≤ e
    → growth_between (record (grown_plot plot delta m) { estimated_mature_at_ms = old }) m e
      ≡ growth_between plot m e
grown_growth plot delta m e old le =
    growth_between-simulate (record (grown_plot plot delta m) { estimated_mature_at_ms = old }) m e
      le
    ∙ simulate_congruent plot (record (grown_plot plot delta m) { estimated_mature_at_ms = old }) 0
        m (e - m)
        (λ k lo.
          unfold effective_rate_scaled6 in
          (unfold effective_rate_scaled6 in grown_rate plot delta m k lo))
    ∙ sym (growth_between-simulate plot m e le)
