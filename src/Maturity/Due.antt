-- ===== src/Maturity/Due.antt =====
-- After `materializeDueMaturities` (server/internal/player/growth.go) no growing plot is due.
use supernova_classic_farm.Base.{
  ℕ, ◌≤◌, ◌<◌, ◌≡◌, refl, sym, ap, ◌∙◌, ◌⊎◌, inl, inr, Bool, true, false, not, ◌||◌, Option, none,
  some, List, [], ◌∷◌, ◌++◌, arith, Result, ok, err, leb, ◌==◌, if◌then◌else◌, Bool-cases,
  Option-cases, In, map,
}
use supernova_classic_farm.Base.Sort.{sort-In}
use supernova_classic_farm.Base.Map.{Map, lookup, insert, lookup-insert}
use supernova_classic_farm.Plot.{Plot}
use supernova_classic_farm.Growth.{
  GrowthError, is_growing, max_int64_of, growing_fields_invalid, remaining_growth, matured_plot,
  estimated, apply_growth, settle_growing_plot,
}
use supernova_classic_farm.Growth.Estimate.{estimate-Reaches}
use supernova_classic_farm.Growth.Resettle.{settle-Grown}
use supernova_classic_farm.Player.{State}
use supernova_classic_farm.Maturity.{
  MaturityEvent, Materialized, before_estimate, settled, materialize_plot, materialize_plots,
  plot_ids, materialize_due_maturities,
}

-- A growing plot has an estimate that lies ahead.
abbrev pub IsPending : ℕ → Plot → Type 0
IsPending now_ms plot =
    is_growing plot.state ≡ true
    → (goal : ℕ) × (plot.estimated_mature_at_ms ≡ some goal) × (now_ms < goal)

max_int64_of-le : (now last : ℕ) → now ≤ max_int64_of now last
unfolding max_int64_of
max_int64_of-le now last = ground arith

settle_false-IsPending :
    (plot : Plot) (now_ms : ℕ) {after : Plot}
    → settle_growing_plot plot now_ms ≡ (after, ok false)
    → IsPending now_ms after
settle_false-IsPending plot now_ms {after} h growing =
    let g = settle-Grown plot now_ms h in
    let reach = estimate-Reaches _ _ g.estimates in
    let goal = reach.goal in
    let le = max_int64_of-le now_ms plot.last_settled_at_ms in
    (g.estimate, ap (λ p. p.estimated_mature_at_ms) g.after_eq, omega arith)

estimated-true :
    (plot : Plot) (r : Result GrowthError ℕ) {after : Plot}
    → estimated plot r ≡ (after, ok true)
    → ⊥
unfolding estimated
estimated-true plot (err e) h = cc
estimated-true plot (ok estimate) h = cc

apply_growth-true :
    (plot : Plot) (now_ms : ℕ) (r : Result GrowthError ℕ) {after : Plot}
    → apply_growth plot now_ms r ≡ (after, ok true)
    → is_growing after.state ≡ false
unfolding apply_growth matured_plot
apply_growth-true plot now_ms (err e) h = cc
apply_growth-true plot now_ms (ok delta) h = elim (Bool-cases (leb (remaining_growth plot) delta)) [
  | inl e ↦ ap (λ r. is_growing r.0.state) (sym (rw e at h))
  | inr e ↦ absurd (estimated-true _ _ (rw e at h))
]

settle_true-state :
    (plot : Plot) (now_ms : ℕ) {after : Plot}
    → settle_growing_plot plot now_ms ≡ (after, ok true)
    → is_growing after.state ≡ false
unfolding settle_growing_plot
settle_true-state plot now_ms h = elim (Bool-cases (is_growing plot.state)) [
  | inr e ↦ absurd (let h' = (rw e at h) in cc)
  | inl e ↦ elim (Bool-cases (growing_fields_invalid plot)) [
    | inl f ↦ absurd (let h' = (rw (e, f) at h) in cc)
    | inr f ↦ apply_growth-true plot _ _ (rw (e, f) at h)
  ]
]

abbrev IsPendingAt : ℕ → Map Plot → ℕ → Type 0
IsPendingAt now_ms plots plot_id =
    (plot : Plot) → lookup plot_id plots ≡ some plot → IsPending now_ms plot

skipped-IsPending :
    (plot : Plot) (now_ms : ℕ)
    → (not (is_growing plot.state) || before_estimate plot.estimated_mature_at_ms now_ms) ≡ true
    → IsPending now_ms plot
skipped-IsPending plot now_ms skip growing = ahead plot.estimated_mature_at_ms (rw growing at skip)
  where
    ahead :
        (estimate : Option ℕ)
        → before_estimate estimate now_ms ≡ true
        → (goal : ℕ) × (estimate ≡ some goal) × (now_ms < goal)
    ahead none h = cc
    ahead (some goal) h = (goal, refl, ground arith)

lookup-In :
    (plots : Map Plot) (plot_id : ℕ)
    → In plot_id (map (λ entry. entry.0) plots) ⊎ (lookup plot_id plots ≡ none)
unfolding lookup
lookup-In [] plot_id = inr refl
lookup-In (entry ∷ plots) plot_id = elim (Bool-cases (entry.0 == plot_id)) [
  | inl e ↦ inl (inl (ground arith))
  | inr e ↦ elim (lookup-In plots plot_id) [
    | inl later ↦ inl (inr later)
    | inr missing ↦ inr (rw e missing)
  ]
]

module _ {B : Type 0} where
  settled-IsPending :
      (state : State B) (now_ms plot_id : ℕ) (r : Plot × Result GrowthError Bool)
      → ((after : Plot) → r ≡ (after, ok false) → IsPending now_ms after)
      → ((after : Plot) → r ≡ (after, ok true) → is_growing after.state ≡ false)
      → {next : State B} {events : List MaturityEvent}
      → settled state now_ms plot_id r ≡ (next, events, none)
      → (next.plots ≡ insert plot_id r.0 state.plots) × IsPending now_ms r.0
  unfolding settled
  settled-IsPending state now_ms plot_id (plot, err e) f t h = cc
  settled-IsPending state now_ms plot_id (plot, ok false) f t h =
      (ap (λ m. m.0.plots) (sym h), f plot refl)
  settled-IsPending state now_ms plot_id (plot, ok true) f t h =
      (ap (λ m. m.0.plots) (sym h), λ growing. absurd (let over = t plot refl in cc))

  -- What one round of the loop does to every plot.
  materialize_plot-IsPending :
      (state : State B) (now_ms plot_id : ℕ) {next : State B} {events : List MaturityEvent}
      → materialize_plot state now_ms plot_id ≡ (next, events, none)
      → IsPendingAt now_ms next.plots plot_id
        × ((other : ℕ)
            → (plot_id == other) ≡ false
            → lookup other next.plots ≡ lookup other state.plots)
  unfolding materialize_plot
  materialize_plot-IsPending state now_ms plot_id {next} {events} h =
      elim (Option-cases (lookup plot_id state.plots)) [
        | inl missing ↦
            (let same : next.plots ≡ state.plots =
                ap (λ m. m.0.plots) (sym (rw (missing, materialize_plot) at h)) in
              (
                λ plot found. absurd (let q = ap (lookup plot_id) same in cc),
                λ other e. ap (lookup other) same,
              ))
        | inr (plot, found) ↦
            elim (Bool-cases
              (not (is_growing plot.state) || before_estimate plot.estimated_mature_at_ms now_ms)) [
                | inl skip ↦
                    (let same : next.plots ≡ state.plots =
                        ap (λ m. m.0.plots)
                          (sym (rw skip at (rw (found, materialize_plot) at h))) in
                      (
                        λ plot2 found2.
                            rw
                              (← ok_some plot plot2
                                (sym found ∙ ap (lookup plot_id) (sym same) ∙ found2))
                              (skipped-IsPending plot now_ms skip),
                        λ other e. ap (lookup other) same,
                      ))
                | inr due ↦
                    (let (written, pending) =
                        settled-IsPending state now_ms plot_id (settle_growing_plot plot now_ms)
                          (λ after q. settle_false-IsPending plot now_ms q)
                          (λ after q. settle_true-state plot now_ms q)
                          (rw due at (rw (found, materialize_plot) at h)) in
                      (
                        λ plot2 found2.
                            rw
                              (← ok_some _ plot2 (
                                sym (self plot_id _ state.plots)
                                ∙ ap (lookup plot_id) (sym written)
                                ∙ found2))
                              pending,
                        λ other e.
                            ap (lookup other) written
                            ∙ lookup-insert plot_id other _ state.plots
                            ∙ missed plot_id other _ state.plots e,
                      ))
              ]
      ]
    where
      ok_some : (a b : Plot) → some a ≡ some b → a ≡ b
      ok_some a b q = cc

      own : (k : ℕ) (v : Plot) (o : Option Plot) → (if k == k then some v else o) ≡ some v
      own k v o = ground arith

      self : (k : ℕ) (v : Plot) (m : Map Plot) → lookup k (insert k v m) ≡ some v
      self k v m = lookup-insert k k v m ∙ own k v (lookup k m)

      missed :
          (k j : ℕ) (v : Plot) (m : Map Plot)
          → (k == j) ≡ false
          → (if k == j then some v else lookup j m) ≡ lookup j m
      missed k j v m e = rw e refl

  -- A plot that was pending stays so.
  materialize_plot_keeps :
      (state : State B) (now_ms plot_id other : ℕ) {next : State B} {events : List MaturityEvent}
      → materialize_plot state now_ms plot_id ≡ (next, events, none)
      → IsPendingAt now_ms state.plots other
      → IsPendingAt now_ms next.plots other
  materialize_plot_keeps state now_ms plot_id other h pending =
      let (done, kept) = materialize_plot-IsPending state now_ms plot_id h in
      elim (Bool-cases (plot_id == other)) [
        | inl e ↦ (let same : plot_id ≡ other = ground arith in rw (← same) done)
        | inr e ↦ (λ plot found. pending plot (sym (kept other e) ∙ found))
      ]

  round_done :
      (first : Materialized B) (rest : State B → Materialized B) {last : State B}
      {events : List MaturityEvent}
      → (let (next, events, failure) = first in
          let (last, later, failed) = rest next in
          elim failure as (λ _. Materialized B) [
            | some e ↦ (next, events, some e)
            | none ↦ (last, events ++ later, failed)
          ])
        ≡ (last, events, none)
      → (next : State B) × (before : List MaturityEvent) × (later : List MaturityEvent) × (first
          ≡ (next, before, none))
        × (rest next ≡ (last, later, none))
  round_done (next, before, some e) rest h = cc
  round_done (next, before, none) rest h =
      (next, before, (rest next).1, refl, λ i. ((h i).0, (rest next).1, (h i).2))

  materialize_plots-IsPending :
      (state : State B) (now_ms : ℕ) (ids : List ℕ) (plot_id : ℕ) {last : State B}
      {events : List MaturityEvent}
      → materialize_plots state now_ms ids ≡ (last, events, none)
      → In plot_id ids ⊎ IsPendingAt now_ms state.plots plot_id
      → IsPendingAt now_ms last.plots plot_id
  unfolding materialize_plots
  materialize_plots-IsPending state now_ms [] plot_id h (inr pending) =
      rw (← ap (λ m. m.0.plots) h) pending
  materialize_plots-IsPending state now_ms [] plot_id h (inl none_left) = absurd none_left
  materialize_plots-IsPending state now_ms (id ∷ ids) plot_id h place =
      let (next, before, later, first, rest) =
        round_done (materialize_plot state now_ms id) (λ s. materialize_plots s now_ms ids) h in
      materialize_plots-IsPending next now_ms ids plot_id rest (elim place [
        | inr pending ↦ inr (materialize_plot_keeps state now_ms id plot_id first pending)
        | inl (inr later_on) ↦ inl later_on
        | inl (inl same) ↦ inr (rw same ((materialize_plot-IsPending state now_ms id first).0))
      ])

  -- Unless it reports an error, settling the due plots of any state at any time leaves no growing
  -- plot that is due: every plot that still grows has an estimate, and it lies ahead of that
  -- time.
  pub materialize_due_maturities-IsPending :
      (state : State B) (now_ms plot_id : ℕ) (plot : Plot) {last : State B}
      {events : List MaturityEvent}
      → materialize_due_maturities state now_ms ≡ (last, events, none)
      → lookup plot_id last.plots ≡ some plot
      → IsPending now_ms plot
  unfolding materialize_due_maturities
  materialize_due_maturities-IsPending state now_ms plot_id plot h found =
      materialize_plots-IsPending state now_ms (plot_ids state.plots) plot_id h
        (elim (lookup-In state.plots plot_id) [
          | inl listed ↦ inl (sort-In plot_id _ listed)
          | inr missing ↦ inr (λ p q. absurd (let z = q in cc))
        ])
        plot found
