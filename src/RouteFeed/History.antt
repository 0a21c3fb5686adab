-- ===== src/RouteFeed/History.antt =====
-- What a client holds and takes in: the coordinator's maps and batches, and availability, which
-- leaves the map as it is.
use supernova_classic_farm.Base.{
  opened, ℕ, suc, ◌≤◌, ◌<◌, ◌≡◌, refl, ap, inl, inr, not, Option, none, some, List, [], ok, leb,
  ◌==◌, Bool-cases, ok_unique, >>=-eq-ok,
}
use supernova_classic_farm.Routing.{Snapshot}
use supernova_classic_farm.RouteFeed.Message.{RouteBatch, EncodedSnapshot, snapshot_proto}
use supernova_classic_farm.RouteFeed.Cache.{
  Cache, Availability, AvailabilityBatch, mark_fresh, apply_snapshot, apply_batch, known_version,
  incoming_zones, merge_availability, apply_availability,
}
use supernova_classic_farm.RouteFeed.Publish.{route_batch}
use supernova_classic_farm.RouteFeed.RoundTrip.{IsCommitted}
use supernova_classic_farm.RouteFeed.Changes.{AreNewer}

-- The coordinator's maps up to the `n`th, and the batches that it published between them.
pub record IsHistory (n : ℕ) (committed : ℕ → Snapshot) (batch : ℕ → RouteBatch) : Type 0 where
  pub whole : (i : ℕ) → i ≤ n → IsCommitted (committed i)
  pub published : (i : ℕ) → i < n → route_batch (committed i) (committed (suc i)) ≡ ok (batch i)
  pub newer : (i : ℕ) → i < n → AreNewer (committed i).entries (committed (suc i)).entries

-- What a client takes in without an error: whole maps, batches by their number, availability and
-- signs of life, each of them lost, repeated or late.
pub data Delivered (n : ℕ) (committed : ℕ → Snapshot) (batch : ℕ → RouteBatch)
    : Cache → Cache → Type 0 where
  done : (cache : Cache) → Delivered n committed batch cache cache
  resynchronized :
      (cache next last : Cache) (i : ℕ) (encoded : EncodedSnapshot)
      → i ≤ n
      → snapshot_proto (committed i) ≡ ok encoded
      → apply_snapshot cache (some encoded) ≡ ok next
      → Delivered n committed batch next last
      → Delivered n committed batch cache last
  received :
      (cache next last : Cache) (j : ℕ)
      → j < n
      → apply_batch cache (some (batch j)) ≡ ok next
      → Delivered n committed batch next last
      → Delivered n committed batch cache last
  informed :
      (cache next last : Cache) (availability : Option AvailabilityBatch)
      → apply_availability cache availability ≡ ok next
      → Delivered n committed batch next last
      → Delivered n committed batch cache last
  refreshed :
      (cache last : Cache) (now : ℕ)
      → Delivered n committed batch (mark_fresh cache now) last
      → Delivered n committed batch cache last

-- The client's copy is one of the coordinator's maps.
pub record Holds (n : ℕ) (committed : ℕ → Snapshot) (cache : Cache) : Type 0 where
  pub index : ℕ
  pub known : index ≤ n
  pub loaded : Snapshot
  pub in_use : cache.snapshot ≡ some loaded
  pub version : loaded.map_version ≡ (committed index).map_version
  pub entries : loaded.entries ≡ (committed index).entries

merge_availability-snapshot :
    (cache : Cache) (sent : AvailabilityBatch) (incoming : List (List ℕ × Availability))
    {next : Cache}
    → merge_availability cache sent incoming ≡ ok next
    → cache.snapshot ≡ next.snapshot
unfolding merge_availability
merge_availability-snapshot cache sent incoming h =
    elim (Bool-cases (sent.previous_availability_version == 0)) [
      | inl e ↦ ap (λ c. c.snapshot) (ok_unique (ok _) refl (rw e at h))
      | inr e ↦
          elim (Bool-cases (leb sent.availability_version (known_version cache.availability))) [
            | inl old ↦ ap (λ c. c.snapshot) (ok_unique (ok cache) refl (rw (e, old) at h))
            | inr newer ↦
                (let (_, merged) =
                    opened
                      (not (sent.previous_availability_version == known_version cache.availability))
                      _ _ (rw (e, newer) at h) in
                  ap (λ c. c.snapshot) (ok_unique (ok _) refl merged))
          ]
    ]

pub apply_availability-snapshot :
    (cache : Cache) (sent : Option AvailabilityBatch) {next : Cache}
    → apply_availability cache sent ≡ ok next
    → cache.snapshot ≡ next.snapshot
unfolding apply_availability
apply_availability-snapshot cache none h = cc
apply_availability-snapshot cache (some sent) h =
    let (_, h1) = opened (leb sent.availability_version sent.previous_availability_version) _ _ h in
    let (incoming, _, h2) = >>=-eq-ok (incoming_zones sent.zones []) _ h1 in
    merge_availability-snapshot cache sent incoming h2
