-- ===== src/Growth/Segments.antt =====
-- The rate of growth is constant between boundaries, so summing over the boundaries of
-- `growthBetween` (server/internal/player/growth.go) is simulating every millisecond.
use supernova_classic_farm.Base.{
  ℕ, zero, suc, ◌+◌, ◌-◌, ◌*◌, ◌≤◌, ◌<◌, ◌≡◌, refl, sym, ap, ◌∙◌, ◌⊎◌, inl, inr, ◌&&◌, Option, none,
  some, List, [], ◌∷◌, arith, ok, err, ◌>>=◌, ltb, leb, Bool-cases, Result-cases, leb→le,
  leb_false→lt,
}
use supernova_classic_farm.Base.Int.{ℤ}
use supernova_classic_farm.Plot.{TimedEffect, Plot}
use supernova_classic_farm.Growth.{
  GrowthError, add_modifier, checked_rate, effective_rate_scaled6, advance, sum_segments,
}
use supernova_classic_farm.Growth.Simulation.{simulate, simulate_append}

abbrev pub IsEdge : Option TimedEffect → ℕ → Type 0
IsEdge none b = ⊥
IsEdge (some effect) b = (b ≡ effect.start_at_ms) ⊎ (b ≡ effect.end_at_ms)

-- The times at which the rate may change.
abbrev pub IsBoundary : Plot → ℕ → Type 0
IsBoundary plot b = IsEdge plot.fertilizer_effect b ⊎ IsEdge plot.pest_effect b

abbrev pub NoBoundary : Plot → ℕ → ℕ → Type 0
NoBoundary plot left right = (b : ℕ) → IsBoundary plot b → left < b → b < right → ⊥

add_modifier_constant :
    (effect : Option TimedEffect) (left right t : ℕ) (rate : ℤ)
    → ((b : ℕ) → IsEdge effect b → left < b → b < right → ⊥)
    → left ≤ t
    → t < right
    → add_modifier effect t rate ≡ add_modifier effect left rate
unfolding add_modifier
add_modifier_constant none left right t rate clear lo hi = refl
add_modifier_constant (some effect) left right t rate clear lo hi = rw (same) refl
  where
    at_start : leb effect.start_at_ms t ≡ leb effect.start_at_ms left
    at_start = ground (arith, clear effect.start_at_ms (inl refl))

    at_end : ltb t effect.end_at_ms ≡ ltb left effect.end_at_ms
    at_end = ground (arith, clear effect.end_at_ms (inr refl))

    same :
        (leb effect.start_at_ms t && ltb t effect.end_at_ms)
        ≡ (leb effect.start_at_ms left && ltb left effect.end_at_ms)
    same = λ i. at_start i && at_end i

-- Between boundaries the rate does not change.
pub effective_rate_constant :
    (plot : Plot) (left right t : ℕ)
    → NoBoundary plot left right
    → left ≤ t
    → t < right
    → effective_rate_scaled6 plot t ≡ effective_rate_scaled6 plot left
unfolding effective_rate_scaled6
effective_rate_constant plot left right t clear lo hi = λ i.
    add_modifier_constant plot.fertilizer_effect left right t plot.base_growth_rate_scaled6
      (λ b h. clear b (inl h)) lo hi i
    >>= λ fertilized.
        add_modifier_constant plot.pest_effect left right t fertilized (λ b h. clear b (inr h)) lo
          hi i
        >>= λ rate. checked_rate rate

-- `n` milliseconds at one rate.
pub simulate_constant :
    (plot : Plot) (total t n rate : ℕ)
    → ((k : ℕ) → t ≤ k → k < t + n → effective_rate_scaled6 plot k ≡ ok rate)
    → simulate plot total t n ≡ ok (total + n * rate)
unfolding simulate
simulate_constant plot total t zero rate h = ap ok (omega arith)
simulate_constant plot total t (suc n) rate h = rw (h t (omega arith) (omega arith)) (
    simulate_constant plot (total + rate) (suc t) n rate
      (λ k lo hi. h k (omega arith) (omega arith))
    ∙ ap ok (omega arith))

simulate_error :
    (plot : Plot) (total t n : ℕ) (e : GrowthError)
    → effective_rate_scaled6 plot t ≡ err e
    → 0 < n
    → simulate plot total t n ≡ err e
unfolding simulate
simulate_error plot total t zero e h p = elim p [ ]
simulate_error plot total t (suc n) e h p = rw h refl

-- One interval with no boundary inside it.
pub advance-simulate :
    (plot : Plot) (total left right : ℕ)
    → left ≤ right
    → NoBoundary plot left right
    → advance plot total left right ≡ simulate plot total left (right - left)
unfolding advance
advance-simulate plot total left right le clear = elim (Bool-cases (leb right left)) [
  | inl e ↦
      (let same : right - left ≡ 0 = (let p = leb→le right left e in omega arith) in
        rw (e, same) (unfold simulate in refl))
  | inr e ↦ rw e (elim (Result-cases (effective_rate_scaled6 plot left)) [
    | inl (rate, h) ↦ rw h (
        sym (
          simulate_constant plot total left (right - left) rate
            (λ k lo hi. effective_rate_constant plot left right k clear lo (omega arith) ∙ h)))
    | inr (x, h) ↦ rw h (
        sym (
          simulate_error plot total left (right - left) x h
            (let p = leb_false→lt right left e in omega arith)))
  ])
]

-- Adjacent times without a boundary between them, the last being `end_ms`.
abbrev pub Chain : Plot → ℕ → ℕ → List ℕ → Type 0
Chain plot end_ms left [] = left ≡ end_ms
Chain plot end_ms left (right ∷ rest) =
    (left ≤ right) × NoBoundary plot left right × Chain plot end_ms right rest

Chain-le :
    (plot : Plot) (end_ms left : ℕ) (rest : List ℕ) → Chain plot end_ms left rest → left ≤ end_ms
Chain-le plot end_ms left [] c = omega arith
Chain-le plot end_ms left (right ∷ rest) c = omega (arith, Chain-le plot end_ms right rest c.2)

pub sum_segments-simulate :
    (plot : Plot) (end_ms total left : ℕ) (rest : List ℕ)
    → Chain plot end_ms left rest
    → sum_segments plot total (left ∷ rest) ≡ simulate plot total left (end_ms - left)
unfolding sum_segments
sum_segments-simulate plot end_ms total left [] c =
    let same : end_ms - left ≡ 0 = omega arith in rw same (unfold simulate in refl)
sum_segments-simulate plot end_ms total left (right ∷ rest) c =
    let le = Chain-le plot end_ms right rest c.2 in
    rw (advance-simulate plot total left right c.0 c.1) (
      (λ i. simulate plot total left (right - left) >>= λ next.
      sum_segments-simulate plot end_ms next right rest c.2 i)
      ∙ sym (rejoin le))
  where
    rejoin :
        right ≤ end_ms
        → simulate plot total left (end_ms - left) ≡ (
            simulate plot total left (right - left) >>= λ a. simulate plot a right (end_ms - right))
    rejoin le =
        simulate_append plot total left (right - left) (end_ms - right) (end_ms - left)
          (omega arith)
        ∙ (λ i. simulate plot total left (right - left) >>= λ a.
            simulate plot a (back i) (end_ms - right))
      where
        back : left + (right - left) ≡ right
        back = omega arith
