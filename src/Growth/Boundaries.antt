-- ===== src/Growth/Boundaries.antt =====
-- The sorted boundaries of `growthBetween` (server/internal/player/growth.go) miss no change of
-- the rate, so the function computes the growth that the simulation defines.
use supernova_classic_farm.Base.{
  ℕ, ◌+◌, ◌-◌, ◌≤◌, ◌<◌, ◌≡◌, refl, sym, ap, ◌∙◌, inl, inr, Option, none, some, List, [], ◌∷◌, ◌++◌,
  arith, ok, ◌>>=◌, In, All, le→ltb_false,
}
use supernova_classic_farm.Base.Sort.{sort, IsSorted, All-In, sort-IsSorted, sort-All, sort-In}
use supernova_classic_farm.Plot.{TimedEffect, Plot}
use supernova_classic_farm.Growth.{
  boundary_within, inner_boundaries, sum_segments, growth_boundaries, growth_between,
}
use supernova_classic_farm.Growth.Simulation.{simulate, simulate_append, simulate_shift}
use supernova_classic_farm.Growth.Segments.{
  IsEdge, IsBoundary, NoBoundary, Chain, sum_segments-simulate,
}

pub In-append_left : (b : ℕ) (xs ys : List ℕ) → In b xs → In b (xs ++ ys)
In-append_left b [] ys m = absurd m
In-append_left b (x ∷ xs) ys (inl e) = inl e
In-append_left b (x ∷ xs) ys (inr m) = inr (In-append_left b xs ys m)

pub In-append_right : (b : ℕ) (xs ys : List ℕ) → In b ys → In b (xs ++ ys)
In-append_right b [] ys m = m
In-append_right b (x ∷ xs) ys m = inr (In-append_right b xs ys m)

pub All-append : (P : ℕ → Type 0) (xs ys : List ℕ) → All P xs → All P ys → All P (xs ++ ys)
All-append P [] ys h k = k
All-append P (x ∷ xs) ys h k = (h.0, All-append P xs ys h.1 k)

-- A list that is sorted, bounded by `end_ms`, holds `end_ms` and every boundary in between.
pub Chain-of_sorted :
    (plot : Plot) (end_ms left : ℕ) (rest : List ℕ)
    → IsSorted (left ∷ rest)
    → All (λ x. x ≤ end_ms) (left ∷ rest)
    → In end_ms (left ∷ rest)
    → ((b : ℕ) → IsBoundary plot b → left < b → b < end_ms → In b (left ∷ rest))
    → Chain plot end_ms left rest
Chain-of_sorted plot end_ms left [] sorted upper (inl e) cover = sym e
Chain-of_sorted plot end_ms left [] sorted upper (inr m) cover = absurd m
Chain-of_sorted plot end_ms left (right ∷ rest) sorted upper has cover =
    (sorted.0.0, clear, Chain-of_sorted plot end_ms right rest sorted.1 upper.1 (has' has) cover')
  where
    beyond : (b : ℕ) → In b (left ∷ right ∷ rest) → left < b → In b (right ∷ rest)
    beyond b (inl e) lt = absurd (omega arith)
    beyond b (inr m) lt = m

    from_right : (b : ℕ) → In b (right ∷ rest) → right ≤ b
    from_right b (inl e) = omega arith
    from_right b (inr m) = All-In (λ y. right ≤ y) b rest sorted.1.0 m

    clear : NoBoundary plot left right
    clear b h lo hi =
        let p = from_right b (beyond b (cover b h lo (let q = upper.1.0 in omega arith)) lo) in
        omega arith

    has' : In end_ms (left ∷ right ∷ rest) → In end_ms (right ∷ rest)
    has' (inl e) = inl (let p = sorted.0.0 in let q = upper.1.0 in omega arith)
    has' (inr m) = m

    cover' : (b : ℕ) → IsBoundary plot b → right < b → b < end_ms → In b (right ∷ rest)
    cover' b h lo hi =
        let p : left < b = (let q = sorted.0.0 in omega arith) in beyond b (cover b h p hi) p

boundary_within-All : (b s e : ℕ) → All (λ x. (s ≤ x) × (x ≤ e)) (boundary_within b s e)
unfolding boundary_within
boundary_within-All b s e = ground arith

boundary_within-In : (b s e : ℕ) → s < b → b < e → In b (boundary_within b s e)
unfolding boundary_within
boundary_within-In b s e lo hi = ground arith

inner_boundaries-All :
    (effect : Option TimedEffect) (s e : ℕ)
    → All (λ x. (s ≤ x) × (x ≤ e)) (inner_boundaries effect s e)
inner_boundaries-All none s e = unfold inner_boundaries in tt
inner_boundaries-All (some effect) s e =
    unfold inner_boundaries in
    All-append (λ x. (s ≤ x) × (x ≤ e)) (boundary_within effect.start_at_ms s e)
      (boundary_within effect.end_at_ms s e) (boundary_within-All effect.start_at_ms s e)
      (boundary_within-All effect.end_at_ms s e)

inner_boundaries-In :
    (effect : Option TimedEffect) (s e b : ℕ)
    → IsEdge effect b
    → s < b
    → b < e
    → In b (inner_boundaries effect s e)
inner_boundaries-In none s e b h lo hi = absurd h
inner_boundaries-In (some effect) s e b (inl h) lo hi =
    unfold inner_boundaries in
    In-append_left b (boundary_within effect.start_at_ms s e) (boundary_within effect.end_at_ms s e)
      (rw (← h) (boundary_within-In b s e lo hi))
inner_boundaries-In (some effect) s e b (inr h) lo hi =
    unfold inner_boundaries in
    In-append_right b (boundary_within effect.start_at_ms s e)
      (boundary_within effect.end_at_ms s e) (rw (← h) (boundary_within-In b s e lo hi))

module _ (plot : Plot) (s e : ℕ) (le : s ≤ e) where
  abbrev raw : List ℕ
  raw =
      s ∷ e ∷ (inner_boundaries plot.fertilizer_effect s e ++ inner_boundaries plot.pest_effect s e)

  raw-All : All (λ x. (s ≤ x) × (x ≤ e)) raw
  raw-All = (
    (omega arith, omega arith),
    (
      (omega arith, omega arith),
      All-append (λ x. (s ≤ x) × (x ≤ e)) _ _ (inner_boundaries-All plot.fertilizer_effect s e)
          (inner_boundaries-All plot.pest_effect s e),
    ),
  )

  raw-In : (b : ℕ) → IsBoundary plot b → s < b → b < e → In b raw
  raw-In b (inl h) lo hi =
      inr (inr (In-append_left b _ _ (inner_boundaries-In plot.fertilizer_effect s e b h lo hi)))
  raw-In b (inr h) lo hi =
      inr (inr (In-append_right b _ _ (inner_boundaries-In plot.pest_effect s e b h lo hi)))

  -- A sorted list of times in the interval that holds its ends is summed as the simulation.
  sorted_sum :
      (xs : List ℕ)
      → IsSorted xs
      → All (λ x. (s ≤ x) × (x ≤ e)) xs
      → In s xs
      → In e xs
      → ((b : ℕ) → IsBoundary plot b → s < b → b < e → In b xs)
      → sum_segments plot 0 xs ≡ simulate plot 0 s (e - s)
  sorted_sum [] sorted bounds has_s has_e cover = absurd has_s
  sorted_sum (x ∷ xs) sorted bounds has_s has_e cover = rw first (
      sum_segments-simulate plot e 0 x xs (
        Chain-of_sorted plot e x xs sorted (upper (x ∷ xs) bounds) has_e
          (λ b h lo hi. cover b h (let q = bounds.0.0 in omega arith) hi)))
    where
      least : In s (x ∷ xs) → x ≤ s
      least (inl p) = omega arith
      least (inr m) = All-In (λ y. x ≤ y) s xs sorted.0 m

      first : s ≡ x
      first = let p = least has_s in let q = bounds.0.0 in omega arith

      upper : (ys : List ℕ) → All (λ y. (s ≤ y) × (y ≤ e)) ys → All (λ y. y ≤ e) ys
      upper = elim [ [] ↦ λ h. tt | y ∷ (ys → ih) ↦ λ h. (h.0.1, ih h.1) ]

  -- Over an interval that is not reversed, `growthBetween` returns what simulating every
  -- millisecond returns: the same growth, or the same error.
  pub growth_between-simulate : growth_between plot s e ≡ simulate plot 0 s (e - s)
  unfolding growth_between growth_boundaries
  growth_between-simulate = rw (le→ltb_false e s le) (
      sorted_sum (sort raw) (sort-IsSorted raw) (sort-All (λ x. (s ≤ x) × (x ≤ e)) raw raw-All)
        (sort-In s raw (inl refl)) (sort-In e raw (inr (inl refl)))
        (λ b h lo hi. sort-In b raw (raw-In b h lo hi)))

-- Growth over adjacent intervals adds up, also where one of them fails.
pub growth_between_additive :
    (plot : Plot) (s m e : ℕ)
    → s ≤ m
    → m ≤ e
    → growth_between plot s e ≡ (
        growth_between plot s m >>= λ first.
        growth_between plot m e >>= λ second. ok (first + second))
growth_between_additive plot s m e sm me =
    rw
      (
        growth_between-simulate plot s e (omega arith),
        growth_between-simulate plot s m sm,
        growth_between-simulate plot m e me,
        simulate_append plot 0 s (m - s) (e - m) (e - s) (omega arith),
      )
      (let back : s + (m - s) ≡ m = omega arith in
        rw back (λ i. simulate plot 0 s (m - s) >>= λ first. rest first i))
  where
    rest :
        (first : ℕ)
        → simulate plot first m (e - m)
          ≡ (simulate plot 0 m (e - m) >>= λ second. ok (first + second))
    rest first =
        ap (λ x. simulate plot x m (e - m)) zero_right ∙ simulate_shift plot first 0 m (e - m)
      where
        zero_right : first ≡ first + 0
        zero_right = omega arith
