-- ===== src/Growth/Simulation.antt =====
-- The specification of growth: one millisecond after another, each at the rate that holds at it.
use supernova_classic_farm.Base.{
  ℕ, zero, suc, ◌+◌, ◌-◌, ◌≤◌, ◌≡◌, refl, sym, arith, Result, ok, ◌>>=◌, >>=-assoc, ap, ◌∙◌,
  >>=-eq-ok,
}
use native.Mathlib.Nat.{add_assoc}
use supernova_classic_farm.Plot.{Plot}
use supernova_classic_farm.Growth.{GrowthError, effective_rate_scaled6}

-- The growth of `n` milliseconds from `at_ms`, added to `total`.
unfoldable pub simulate : Plot → ℕ → ℕ → ℕ → Result GrowthError ℕ
simulate plot total at_ms zero = ok total
simulate plot total at_ms (suc n) =
    effective_rate_scaled6 plot at_ms >>= λ rate. simulate plot (total + rate) (suc at_ms) n

-- Simulating `n + m` milliseconds is simulating `n` and then `m` more.
pub simulate_append :
    (plot : Plot) (total t n m k : ℕ)
    → k ≡ n + m
    → simulate plot total t k ≡ (simulate plot total t n >>= λ a. simulate plot a (t + n) m)
unfolding simulate
simulate_append plot total t zero m k e =
    let p : k ≡ m = omega arith in let q : t + 0 ≡ t = omega arith in rw (p, q) refl
simulate_append plot total t (suc n) m zero e = absurd (omega arith)
simulate_append plot total t (suc n) m (suc k) e =
    let q : t + suc n ≡ suc t + n = omega arith in
    rw (q, >>=-assoc)
      (λ i. effective_rate_scaled6 plot t >>= λ rate.
        simulate_append plot (total + rate) (suc t) n m k (omega arith) i)

-- What has grown before is only added.
pub simulate_shift :
    (plot : Plot) (a total t n : ℕ)
    → simulate plot (a + total) t n ≡ (simulate plot total t n >>= λ g. ok (a + g))
unfolding simulate
simulate_shift plot a total t zero = refl
simulate_shift plot a total t (suc n) = rw (>>=-assoc) (λ i.
    effective_rate_scaled6 plot t >>= λ rate.
    (ap (λ x. simulate plot x (suc t) n) (add_assoc a total rate)
        ∙ simulate_shift plot a (total + rate) (suc t) n)
      i)

pub simulate-le : (plot : Plot) (total t n g : ℕ) → simulate plot total t n ≡ ok g → total ≤ g
unfolding simulate
simulate-le plot total t zero g h = ground arith
simulate-le plot total t (suc n) g h =
    let (rate, _, later) = >>=-eq-ok (effective_rate_scaled6 plot t) _ h in
    omega (arith, simulate-le plot (total + rate) (suc t) n g later)

-- An interval that can be simulated can be simulated up to any time in it, with no more growth.
pub simulate_prefix :
    (plot : Plot) (total t n m g : ℕ)
    → simulate plot total t n ≡ ok g
    → m ≤ n
    → (g' : ℕ) × (simulate plot total t m ≡ ok g') × (total ≤ g') × (g' ≤ g)
simulate_prefix plot total t n m g h le =
    let (g', first, later) =
      >>=-eq-ok (simulate plot total t m) _
        (sym (simulate_append plot total t m (n - m) n (omega arith)) ∙ h) in
    (g', first, simulate-le plot total t m g' first, simulate-le plot g' (t + m) (n - m) g later)
