-- ===== src/Base/Map.antt =====
-- A Go map with number keys, as an association list. `lookup` is the two-value read, `read` the
-- one-value read of a map of numbers, `insert` the assignment and `erase` the built-in `delete`.
use supernova_classic_farm.Base.{
  ℕ, ◌≡◌, refl, Option, none, some, List, [], ◌∷◌, arith, ◌==◌, if◌then◌else◌,
}

abbrev pub Map {ℓ} : Type ℓ → Type ℓ
Map V = List (ℕ × V)

module _ {ℓ} {V : Type ℓ} where
  unfoldable pub lookup : ℕ → Map V → Option V
  lookup key [] = none
  lookup key (entry ∷ entries) = if entry.0 == key then some entry.1 else lookup key entries

  unfoldable pub insert : ℕ → V → Map V → Map V
  insert key value [] = (key, value) ∷ []
  insert key value (entry ∷ entries) =
      if entry.0 == key then (key, value) ∷ entries else entry ∷ insert key value entries

  unfoldable pub erase : ℕ → Map V → Map V
  erase key [] = []
  erase key (entry ∷ entries) =
      (let rest = erase key entries in if entry.0 == key then rest else entry ∷ rest)

  pub lookup-insert :
      (key other : ℕ) (value : V) (entries : Map V)
      → lookup other (insert key value entries)
        ≡ (if key == other then some value else lookup other entries)
  unfolding lookup insert
  lookup-insert key other value (entry ∷ entries) =
      ground (arith, lookup-insert key other value entries)
  lookup-insert key other value [] = refl

  pub lookup-erase :
      (key other : ℕ) (entries : Map V)
      → lookup other (erase key entries) ≡ (if key == other then none else lookup other entries)
  unfolding lookup erase
  lookup-erase key other (entry ∷ entries) = ground (arith, lookup-erase key other entries)
  lookup-erase key other [] = ground arith

-- A missing key reads as 0.
unfoldable pub read : Map ℕ → ℕ → ℕ
unfolding lookup
read m k = elim (lookup k m) [ none ↦ 0 | some v ↦ v ]

pub read-insert : (k j v : ℕ) (m : Map ℕ) → read (insert k v m) j ≡ (if k == j then v else read m j)
unfolding read
read-insert k j v m = ground (arith, lookup-insert k j v m)

pub read-erase : (k j : ℕ) (m : Map ℕ) → read (erase k m) j ≡ (if k == j then 0 else read m j)
unfolding read
read-erase k j m = ground (arith, lookup-erase k j m)
