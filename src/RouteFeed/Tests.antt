-- ===== src/RouteFeed/Tests.antt =====
-- Examples for the feed: two committed maps of 4,096 shards, the second with a newer route of
-- shard 0, and a client that loads the first, receives the batch twice and resolves the shard.
use supernova_classic_farm.Base.{
  Bool, ◌&&◌, ℕ, zero, suc, ◌+◌, ◌<◌, ◌≡◌, refl, ap, ◌⊎◌, inl, inr, true, false, none, some, List,
  [], ◌∷◌, ok, arith, ltb, ◌==◌, length, All,
}
use supernova_classic_farm.Base.Bytes.{
  bytes_equal, bytes_equal_refl, hex_encode, hex_decode, remove_dashes,
}
use supernova_classic_farm.Base.Text.{trim_space}
use supernova_classic_farm.Base.Uuid.{dashed, IsByte}
use supernova_classic_farm.Routing.{RouteState, RouteEntry, Snapshot, same_identity}
use supernova_classic_farm.RouteFeed.Message.{
  EncodedSnapshot, active_complete, uuid_bytes, RouteBatch, encoded_route, route_proto,
  route_protos, snapshot_proto, decode_snapshot,
}
use supernova_classic_farm.RouteFeed.Cache.{
  Cache, new_route_cache, apply_snapshot, apply_batch, apply_to, advance_map,
}
use supernova_classic_farm.RouteFeed.Publish.{same_entry, changed_entries, route_batch}
use supernova_classic_farm.RouteFeed.RoundTrip.{
  IsCarried, AreCarried, IsCommitted, decode_snapshot-snapshot_proto,
}
use supernova_classic_farm.RouteFeed.Changes.{AreNewer}
use supernova_classic_farm.RouteFeed.Applied.{moved_on, advance_map-route_batch}
use supernova_classic_farm.RouteFeed.History.{IsHistory, Delivered, Holds}
use supernova_classic_farm.RouteFeed.Delivery.{Delivered-Holds}

abbrev lease_bytes : List ℕ
lease_bytes = 1 ∷ 2 ∷ 3 ∷ 4 ∷ 5 ∷ 6 ∷ 7 ∷ 8 ∷ 9 ∷ 10 ∷ 11 ∷ 12 ∷ 13 ∷ 14 ∷ 15 ∷ 255 ∷ []

abbrev route_of : ℕ → ℕ → RouteEntry
route_of shard version = record {
  shard_id = shard;
  owner_zone_id = b'a' ∷ [];
  owner_endpoint = b'e' ∷ [];
  owner_epoch = 1;
  route_version = version;
  state = RouteState.active;
  lease_term = 1;
  lease_id = dashed (hex_encode lease_bytes);
  lease_expires_at = 3000000;
  previous_owner_zone_id = [];
  transition_id = [];
  updated_at = 1000000;
}

shards : ℕ → ℕ → List RouteEntry
shards shard zero = []
shards shard (suc n) = route_of shard 1 ∷ shards (shard + 1) n

abbrev map_of : ℕ → List RouteEntry → Snapshot
map_of version entries = record {
  shard_count = 4096;
  hash_algorithm_version = 1;
  assignment_algorithm_version = 1;
  map_version = version;
  committed_term = 0;
  committed_index = 0;
  entries = entries;
}

abbrev committed : ℕ → Snapshot
committed zero = map_of 1 (route_of 0 1 ∷ shards 1 4095)
committed (suc i) = map_of 2 (route_of 0 2 ∷ shards 1 4095)

all_small : List ℕ → Bool
all_small [] = true
all_small (b ∷ bytes) = ltb b 256 && all_small bytes

all_small-IsByte : (bytes : List ℕ) → all_small bytes ≡ true → All IsByte bytes
unfolding all_small
all_small-IsByte [] h = tt
all_small-IsByte (b ∷ bytes) h = (ground arith, all_small-IsByte bytes (ground arith))

lease_bytes-IsByte : All IsByte lease_bytes
unfolding all_small
lease_bytes-IsByte = all_small-IsByte lease_bytes refl

route_of-IsCarried :
    (shard version : ℕ) → (version == 0) ≡ false → IsCarried (route_of shard version)
unfolding active_complete dashed hex_encode
route_of-IsCarried shard version h = record {
  versioned = rw h refl;
  lease = inr (lease_bytes, refl, lease_bytes-IsByte, refl);
  transition = inl refl;
  lease_at_ms = refl;
  updated_at_ms = refl;
  complete = refl;
}

length-shards : (shard n : ℕ) → length (shards shard n) ≡ n
unfolding shards
length-shards shard zero = refl
length-shards shard (suc n) = omega (arith, length-shards (shard + 1) n)

shards-AreCarried : (shard n : ℕ) → AreCarried shard (shards shard n)
unfolding shards
shards-AreCarried shard zero = tt
shards-AreCarried shard (suc n) =
    (route_of-IsCarried shard 1 refl, refl, shards-AreCarried (shard + 1) n)

same_route :
    (shard version : ℕ) → same_entry (route_of shard version) (route_of shard version) ≡ true
unfolding same_entry same_identity bytes_equal
same_route shard version =
    rw (eq_refl shard, eq_refl version, bytes_equal_refl (dashed (hex_encode lease_bytes))) refl
  where
    eq_refl : (n : ℕ) → (n == n) ≡ true
    eq_refl n = ground arith

shards-AreNewer : (shard n : ℕ) → AreNewer (shards shard n) (shards shard n)
unfolding shards
shards-AreNewer shard zero = tt
shards-AreNewer shard (suc n) = (inl (same_route shard 1), shards-AreNewer (shard + 1) n)

unchanged_shards : (shard n : ℕ) → changed_entries (shards shard n) (shards shard n) ≡ []
unfolding shards changed_entries
unchanged_shards shard zero = refl
unchanged_shards shard (suc n) = rw (same_route shard 1) (unchanged_shards (shard + 1) n)

whole : (i : ℕ) → IsCommitted (committed i)
whole zero = record {
  shards = refl;
  hash = refl;
  assignment = refl;
  version = refl;
  full = ap suc (length-shards 1 4095);
  entries_carried = (route_of-IsCarried 0 1 refl, refl, shards-AreCarried 1 4095);
}
whole (suc i) = record {
  shards = refl;
  hash = refl;
  assignment = refl;
  version = refl;
  full = ap suc (length-shards 1 4095);
  entries_carried = (route_of-IsCarried 0 2 refl, refl, shards-AreCarried 1 4095);
}

changed_route :
    (others : List RouteEntry)
    → changed_entries others others ≡ []
    → changed_entries (route_of 0 1 ∷ others) (route_of 0 2 ∷ others) ≡ route_of 0 2 ∷ []
unfolding changed_entries same_entry same_identity bytes_equal
changed_route others h = ap (λ rest. route_of 0 2 ∷ rest) h

sent : RouteBatch
sent = record {
  previous_map_version = 1;
  map_version = 2;
  routes = some (encoded_route (route_of 0 2) lease_bytes []) ∷ [];
}

encodes :
    route_protos (route_of 0 2 ∷ []) ≡ ok (some (encoded_route (route_of 0 2) lease_bytes []) ∷ [])
unfolding route_protos route_proto uuid_bytes remove_dashes trim_space dashed hex_encode hex_decode
encodes = refl

published : route_batch (committed 0) (committed 1) ≡ ok sent
unfolding route_batch sent
published =
    rw (length-shards 1 4095, changed_route (shards 1 4095) (unchanged_shards 1 4095), encodes) refl

history : IsHistory 1 committed (λ i. sent)
history = record { whole = λ i le. whole i; published = made; newer = newer }
  where
    made : (i : ℕ) → i < 1 → route_batch (committed i) (committed (suc i)) ≡ ok sent
    made zero h = published
    made (suc i) h = absurd (omega arith)

    newer : (i : ℕ) → i < 1 → AreNewer (committed i).entries (committed (suc i)).entries
    newer zero h = (inr (omega arith), shards-AreNewer 1 4095)
    newer (suc i) h = absurd (omega arith)

decode_snapshot-snapshot_proto_example :
    (encoded : EncodedSnapshot) × (snapshot_proto (committed 1) ≡ ok encoded)
    × (decode_snapshot (some encoded) ≡ ok (committed 1))
decode_snapshot-snapshot_proto_example = decode_snapshot-snapshot_proto (committed 1) (whole 1)

advances : advance_map (committed 0) sent ≡ ok (moved_on (committed 0) (committed 1))
advances =
    advance_map-route_batch (committed 0) (committed 1) (committed 0) sent published
      (whole 1).entries_carried (inr (omega arith), shards-AreNewer 1 4095) refl refl

advance_map-route_batch_example :
    advance_map (committed 0) sent ≡ ok (moved_on (committed 0) (committed 1))
advance_map-route_batch_example =
    advance_map-route_batch (committed 0) (committed 1) (committed 0) sent published
      (whole 1).entries_carried (inr (omega arith), shards-AreNewer 1 4095) refl refl

abbrev cache_with : Snapshot → Cache
cache_with loaded = record (new_route_cache 90) { snapshot = some loaded }

abbrev up_to_date : Cache
up_to_date = cache_with (moved_on (committed 0) (committed 1))

loads :
    (encoded : EncodedSnapshot)
    → decode_snapshot (some encoded) ≡ ok (committed 0)
    → apply_snapshot (new_route_cache 90) (some encoded) ≡ ok (cache_with (committed 0))
unfolding apply_snapshot
loads encoded e = rw e refl

follows : apply_batch (cache_with (committed 0)) (some sent) ≡ ok up_to_date
unfolding apply_batch apply_to sent
follows = rw advances refl

delivery : Delivered 1 committed (λ i. sent) (new_route_cache 90) up_to_date
delivery =
    let (encoded, made, back) = decode_snapshot-snapshot_proto (committed 0) (whole 0) in
    Delivered.resynchronized (new_route_cache 90) (cache_with (committed 0)) up_to_date 0 encoded
      (omega arith) made (loads encoded back)
      (Delivered.received (cache_with (committed 0)) up_to_date up_to_date 0 (omega arith) follows
        (Delivered.done up_to_date))

Delivered-Holds_example : (up_to_date.snapshot ≡ none) ⊎ Holds 1 committed up_to_date
Delivered-Holds_example = Delivered-Holds 1 committed (λ i. sent) history 90 up_to_date delivery
