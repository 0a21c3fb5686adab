-- ===== src/RouteFeed/Cache.antt =====
-- `routeCache` of server/internal/coordinatorclient/cache.go. The clock is an argument; times are
-- Unix milliseconds here, as in `freshUntil`, and Unix nanoseconds in the routes. An error leaves
-- the cache as it was.
use supernova_classic_farm.Base.{
  ℕ, zero, suc, ◌+◌, Bool, true, false, not, ◌||◌, Option, none, some, List, [], ◌∷◌, ◌++◌, Result,
  ok, err, ◌>>=◌, leb, ◌==◌, if◌then◌else◌, length,
}
use supernova_classic_farm.Base.Bytes.{bytes_equal}
use supernova_classic_farm.Routing.{RouteEntry, Snapshot, shard_count, entry_at, is_active}
use supernova_classic_farm.RouteFeed.Message.{
  EncodedSnapshot, EncodedRoute, RouteBatch, FeedError, decode_snapshot, decode_route, resync,
  time_of_milli,
}

-- coordinatorv1.ZoneAvailability
pub data Availability : Type 0 where
  unspecified healthy suspect dead draining : Availability

pub record ZoneAvailabilityEntry : Type 0 where
  pub logical_zone_id : List ℕ
  pub availability : Availability

pub record AvailabilityBatch : Type 0 where
  pub previous_availability_version : ℕ
  pub availability_version : ℕ
  pub zones : List (Option ZoneAvailabilityEntry)

-- availabilitySnapshot: a later pair of a Zone replaces an earlier one.
pub record AvailabilitySnapshot : Type 0 where
  pub version : ℕ
  pub zones : List (List ℕ × Availability)

pub record Cache : Type 0 where
  pub snapshot : Option Snapshot
  pub availability : Option AvailabilitySnapshot
  pub fresh_until : ℕ
  pub ttl : ℕ

-- `newRouteCache`
abbrev pub new_route_cache : ℕ → Cache
new_route_cache ttl = record { snapshot = none; availability = none; fresh_until = 0; ttl = ttl }

unfoldable pub mark_fresh : Cache → ℕ → Cache
mark_fresh cache now = record cache { fresh_until = now + cache.ttl }

unfoldable pub apply_snapshot : Cache → Option EncodedSnapshot → Result FeedError Cache
apply_snapshot cache encoded = do
  snapshot ← decode_snapshot encoded
  ok (record cache { snapshot = some snapshot })

-- next.Entries[id] = entry
unfoldable pub set_entry : ℕ → RouteEntry → List RouteEntry → List RouteEntry
set_entry id entry [] = []
set_entry zero entry (first ∷ entries) = entry ∷ entries
set_entry (suc id) entry (first ∷ entries) = first ∷ set_entry id entry entries

abbrev pub seen_before : ℕ → List ℕ → Bool
seen_before id [] = false
seen_before id (other ∷ seen) = other == id || seen_before id seen

-- The loop of `applyBatch`, with the shards that it has seen.
unfoldable pub apply_routes :
    List (Option EncodedRoute)
    → List ℕ
    → List RouteEntry
    → Result FeedError (List RouteEntry × List ℕ)
unfolding set_entry
apply_routes [] seen entries = ok (entries, seen)
apply_routes (encoded ∷ routes) seen entries = do
  entry ← resync (decode_route encoded)
  let rest = apply_routes routes (entry.shard_id ∷ seen) (set_entry entry.shard_id entry entries)
  (if leb shard_count entry.shard_id
      then err FeedError.resync_required
      else if seen_before entry.shard_id seen
      then err FeedError.resync_required
      else if leb entry.route_version (entry_at entries entry.shard_id).route_version
      then err FeedError.resync_required
      else rest)

-- The batch on a loaded map: the map that it leads to.
unfoldable pub advance_map : Snapshot → RouteBatch → Result FeedError Snapshot
unfolding apply_routes
advance_map current batch =
    if leb batch.map_version current.map_version
    then ok current
    else if not (batch.previous_map_version == current.map_version)
    then err FeedError.resync_required
    else (do
      applied ← apply_routes batch.routes [] current.entries
      (if length applied.1 == 0
          then err FeedError.resync_required
          else ok (record current { entries = applied.0; map_version = batch.map_version })))

unfoldable pub apply_to : Cache → Option Snapshot → RouteBatch → Result FeedError Cache
apply_to cache none batch = err FeedError.resync_required
apply_to cache (some current) batch = do
  next ← advance_map current batch
  ok (record cache { snapshot = some next })

unfoldable pub apply_batch : Cache → Option RouteBatch → Result FeedError Cache
unfolding apply_to
apply_batch cache none = err FeedError.resync_required
apply_batch cache (some batch) =
    if leb batch.map_version batch.previous_map_version
    then err FeedError.resync_required
    else apply_to cache cache.snapshot batch

abbrev find_zone : List ℕ → List (List ℕ × Availability) → Option Availability
find_zone zone [] = none
find_zone zone (pair ∷ zones) =
    if bytes_equal pair.0 zone then some pair.1 else find_zone zone zones

abbrev is_healthy : Availability → Bool
is_healthy Availability.healthy = true
is_healthy _ = false

-- The owner's Zone is known and not healthy.
unfoldable pub is_unavailable : Option AvailabilitySnapshot → List ℕ → Bool
is_unavailable none zone = false
is_unavailable (some known) zone = elim (find_zone zone known.zones) [
  | none ↦ false
  | some state ↦ not (is_healthy state)
]

-- `resolveShard` on a loaded map.
unfoldable pub resolve_loaded : Cache → Snapshot → ℕ → ℕ → Result FeedError RouteEntry
resolve_loaded cache loaded id now =
    let entry = entry_at loaded.entries id in
    if leb cache.fresh_until now
    then err FeedError.watch_stale
    else if not (is_active entry.state)
    then err FeedError.route_unavailable
    else if is_unavailable cache.availability entry.owner_zone_id
    then err FeedError.route_unavailable
    else ok (record entry { lease_expires_at = time_of_milli cache.fresh_until })

unfoldable pub resolve_shard : Cache → ℕ → ℕ → Result FeedError RouteEntry
resolve_shard cache id now =
    if leb shard_count id then err FeedError.route_unavailable else (elim cache.snapshot [
      | none ↦ err FeedError.route_unavailable
      | some loaded ↦ resolve_loaded cache loaded id now
    ])

abbrev is_unspecified : Availability → Bool
is_unspecified Availability.unspecified = true
is_unspecified _ = false

-- The first loop of `applyAvailability`.
unfoldable pub incoming_zones :
    List (Option ZoneAvailabilityEntry)
    → List (List ℕ × Availability)
    → Result FeedError (List (List ℕ × Availability))
incoming_zones [] incoming = ok incoming
incoming_zones (none ∷ zones) incoming = err FeedError.resync_required
incoming_zones (some entry ∷ zones) incoming =
    let rest = incoming_zones zones ((entry.logical_zone_id, entry.availability) ∷ incoming) in
    if length entry.logical_zone_id == 0 || is_unspecified entry.availability
    then err FeedError.resync_required
    else (elim (find_zone entry.logical_zone_id incoming) [
      | some state ↦ err FeedError.resync_required
      | none ↦ rest
    ])

abbrev pub known_version : Option AvailabilitySnapshot → ℕ
known_version none = 0
known_version (some current) = current.version

abbrev known_zones : Option AvailabilitySnapshot → List (List ℕ × Availability)
known_zones none = []
known_zones (some current) = current.zones

abbrev available : Cache → ℕ → List (List ℕ × Availability) → Cache
available cache version zones = record cache {
  availability = some (record { version = version; zones = zones });
}

-- `applyAvailability` on a batch whose Zones are well formed.
unfoldable pub merge_availability :
    Cache → AvailabilityBatch → List (List ℕ × Availability) → Result FeedError Cache
merge_availability cache batch incoming =
    if batch.previous_availability_version == 0
    then ok (available cache batch.availability_version incoming)
    else if leb batch.availability_version (known_version cache.availability)
    then ok cache
    else if not (batch.previous_availability_version == known_version cache.availability)
    then err FeedError.resync_required
    else ok
        (available cache batch.availability_version (incoming ++ known_zones cache.availability))

unfoldable pub apply_availability : Cache → Option AvailabilityBatch → Result FeedError Cache
unfolding incoming_zones merge_availability
apply_availability cache none = err FeedError.resync_required
apply_availability cache (some batch) =
    if leb batch.availability_version batch.previous_availability_version
    then err FeedError.resync_required
    else incoming_zones batch.zones [] >>= λ incoming. merge_availability cache batch incoming

abbrev empty_snapshot : Snapshot
empty_snapshot = record {
  shard_count = 0;
  hash_algorithm_version = 0;
  assignment_algorithm_version = 0;
  map_version = 0;
  committed_term = 0;
  committed_index = 0;
  entries = [];
}

unfoldable pub get_snapshot : Cache → Snapshot
get_snapshot cache = elim cache.snapshot [ none ↦ empty_snapshot | some current ↦ current ]

-- `mapVersion`
abbrev pub current_map_version : Cache → ℕ
current_map_version cache = elim cache.snapshot [ none ↦ 0 | some current ↦ current.map_version ]

abbrev with_expiry : ℕ → List RouteEntry → List RouteEntry
with_expiry expiry [] = []
with_expiry expiry (entry ∷ entries) =
    (if is_active entry.state then record entry { lease_expires_at = expiry } else entry)
    ∷ with_expiry expiry entries

-- Every active route with the time until which the map is fresh as its lease.
unfoldable pub effective_snapshot : Cache → Snapshot
unfolding get_snapshot
effective_snapshot cache =
    let snapshot = get_snapshot cache in
    record snapshot { entries = with_expiry (time_of_milli cache.fresh_until) snapshot.entries }
