-- ===== src/Base/Sort.antt =====
-- Go's `sort.Slice` on numbers under `<`: on a total order the sorted slice is determined by its
-- elements, so insertion sort computes it.
use supernova_classic_farm.Base.{
  ℕ, ◌≤◌, refl, inl, inr, List, [], ◌∷◌, arith, leb, In, All, if◌then◌else◌, Bool-cases, leb→le,
  leb_false→lt,
}

pub insert_sorted : ℕ → List ℕ → List ℕ
insert_sorted x [] = x ∷ []
insert_sorted x (y ∷ ys) = if leb x y then x ∷ y ∷ ys else y ∷ insert_sorted x ys

unfoldable pub sort : List ℕ → List ℕ
unfolding insert_sorted
sort [] = []
sort (x ∷ xs) = insert_sorted x (sort xs)

-- Every element is at most all that follow it.
abbrev pub IsSorted : List ℕ → Type 0
IsSorted [] = Unit
IsSorted (x ∷ xs) = All (λ y. x ≤ y) xs × IsSorted xs

pub All-In : (P : ℕ → Type 0) (b : ℕ) (xs : List ℕ) → All P xs → In b xs → P b
All-In P b [] h m = absurd m
All-In P b (x ∷ xs) h (inl e) = rw e h.0
All-In P b (x ∷ xs) h (inr m) = All-In P b xs h.1 m

insert_sorted-All :
    (P : ℕ → Type 0) (x : ℕ) (xs : List ℕ) → P x → All P xs → All P (insert_sorted x xs)
unfolding insert_sorted
insert_sorted-All P x [] p h = (p, tt)
insert_sorted-All P x (y ∷ ys) p h = elim (Bool-cases (leb x y)) [
  | inl e ↦ rw e (p, h)
  | inr e ↦ rw e (h.0, insert_sorted-All P x ys p h.1)
]

All-le_trans : (x y : ℕ) (xs : List ℕ) → x ≤ y → All (λ z. y ≤ z) xs → All (λ z. x ≤ z) xs
All-le_trans x y [] h a = tt
All-le_trans x y (z ∷ zs) h a = (omega arith, All-le_trans x y zs h a.1)

insert_sorted-IsSorted : (x : ℕ) (xs : List ℕ) → IsSorted xs → IsSorted (insert_sorted x xs)
unfolding insert_sorted
insert_sorted-IsSorted x [] h = (tt, tt)
insert_sorted-IsSorted x (y ∷ ys) h = elim (Bool-cases (leb x y)) [
  | inl e ↦ rw e ((leb→le x y e, All-le_trans x y ys (leb→le x y e) h.0), h)
  | inr e ↦ rw e (
    insert_sorted-All (λ z. y ≤ z) x ys (let p = leb_false→lt x y e in omega arith) h.0,
    insert_sorted-IsSorted x ys h.1,
  )
]

insert_sorted-In_self : (x : ℕ) (xs : List ℕ) → In x (insert_sorted x xs)
unfolding insert_sorted
insert_sorted-In_self x [] = inl refl
insert_sorted-In_self x (y ∷ ys) = elim (Bool-cases (leb x y)) [
  | inl e ↦ rw e (inl refl)
  | inr e ↦ rw e (inr (insert_sorted-In_self x ys))
]

insert_sorted-In : (b x : ℕ) (xs : List ℕ) → In b xs → In b (insert_sorted x xs)
unfolding insert_sorted
insert_sorted-In b x [] m = absurd m
insert_sorted-In b x (y ∷ ys) m = elim (Bool-cases (leb x y)) [
  | inl e ↦ rw e (inr m)
  | inr e ↦ rw e (later m (insert_sorted-In b x ys))
]
  where
    later : In b (y ∷ ys) → (In b ys → In b (insert_sorted x ys)) → In b (y ∷ insert_sorted x ys)
    later (inl q) f = inl q
    later (inr q) f = inr (f q)

pub sort-IsSorted : (xs : List ℕ) → IsSorted (sort xs)
unfolding sort
sort-IsSorted [] = tt
sort-IsSorted (x ∷ xs) = insert_sorted-IsSorted x (sort xs) (sort-IsSorted xs)

pub sort-All : (P : ℕ → Type 0) (xs : List ℕ) → All P xs → All P (sort xs)
unfolding sort
sort-All P [] h = tt
sort-All P (x ∷ xs) h = insert_sorted-All P x (sort xs) h.0 (sort-All P xs h.1)

pub sort-In : (b : ℕ) (xs : List ℕ) → In b xs → In b (sort xs)
unfolding sort
sort-In b [] m = m
sort-In b (x ∷ xs) (inl e) = rw e (insert_sorted-In_self x (sort xs))
sort-In b (x ∷ xs) (inr m) = insert_sorted-In b x (sort xs) (sort-In b xs m)
