-- ===== src/RouteFeed/Message.antt =====
-- The messages of the feed, with `RouteProto`, `SnapshotProto` and `uuidBytes` of
-- server/internal/coordinator/publisher/diff.go and `decodeRoute`, `decodeSnapshot` and
-- `formatUUID` of server/internal/coordinatorclient/cache.go. A pointer is an `Option`, a time in
-- a message is Unix milliseconds.
use supernova_classic_farm.Base.{
  ℕ, ◌*◌, ◌/◌, ◌+◌, Bool, not, ◌&&◌, ◌||◌, Option, none, some, List, [], ◌∷◌, Result, ok, err,
  ◌>>=◌, ◌==◌, if◌then◌else◌, length,
}
use supernova_classic_farm.Base.Bytes.{hex_encode, hex_decode, remove_dashes}
use supernova_classic_farm.Base.Text.{trim_space}
use supernova_classic_farm.Base.Uuid.{dashed}
use supernova_classic_farm.Routing.{
  RouteState, RouteEntry, Snapshot, shard_count, hash_algorithm_version,
  assignment_algorithm_version, is_active,
}

-- datav1.ShardRouteState
pub data StateCode : Type 0 where
  unspecified unassigned preparing active : StateCode

-- datav1.ShardRouteEntry
pub record EncodedRoute : Type 0 where
  pub shard_id : ℕ
  pub owner_zone_id : Option (List ℕ)
  pub owner_endpoint : List ℕ
  pub owner_epoch : ℕ
  pub route_version : ℕ
  pub state : StateCode
  pub lease_term : ℕ
  pub lease_id : List ℕ
  pub lease_expires_at_ms : ℕ
  pub previous_owner_zone_id : Option (List ℕ)
  pub transition_id : List ℕ
  pub updated_at_ms : ℕ

-- datav1.ShardMapSnapshot
pub record EncodedSnapshot : Type 0 where
  pub shard_count : ℕ
  pub hash_algorithm_version : ℕ
  pub assignment_algorithm_version : ℕ
  pub map_version : ℕ
  pub committed_term : ℕ
  pub committed_index : ℕ
  pub entries : List (Option EncodedRoute)

-- coordinatorv1.RouteBatch
pub record RouteBatch : Type 0 where
  pub previous_map_version : ℕ
  pub map_version : ℕ
  pub routes : List (Option EncodedRoute)

pub data FeedError : Type 0 where
  invalid_uuid resync_required route_unavailable watch_stale : FeedError
  incomplete_snapshot version_did_not_advance no_changed_route : FeedError

unfoldable pub unix_milli : ℕ → ℕ
unix_milli time = time / 1000000

unfoldable pub time_of_milli : ℕ → ℕ
time_of_milli ms = ms * 1000000

-- The last test of `uuidBytes`.
unfoldable pub sixteen_bytes : Option (List ℕ) → Result FeedError (List ℕ)
sixteen_bytes none = err FeedError.invalid_uuid
sixteen_bytes (some bytes) = if length bytes == 16 then ok bytes else err FeedError.invalid_uuid

unfoldable pub uuid_bytes : List ℕ → Result FeedError (List ℕ)
unfolding sixteen_bytes
uuid_bytes value =
    let digits = remove_dashes (trim_space value) in
    if length digits == 0 then ok [] else sixteen_bytes (hex_decode digits)

unfoldable pub format_uuid : List ℕ → Result FeedError (List ℕ)
format_uuid value =
    if length value == 0
    then ok []
    else if not (length value == 16)
    then err FeedError.invalid_uuid
    else ok (dashed (hex_encode value))

unfoldable pub state_code : RouteState → StateCode
state_code RouteState.active = StateCode.active
state_code RouteState.preparing = StateCode.preparing
state_code RouteState.unassigned = StateCode.unassigned

-- The pointer to a text that is left out when it is empty, and its getter.
unfoldable pub optional_text : List ℕ → Option (List ℕ)
optional_text [] = none
optional_text (c ∷ text) = some (c ∷ text)

unfoldable pub text_of : Option (List ℕ) → List ℕ
text_of none = []
text_of (some text) = text

-- The message of a route whose UUIDs have been encoded.
unfoldable pub encoded_route : RouteEntry → List ℕ → List ℕ → EncodedRoute
unfolding state_code optional_text unix_milli
encoded_route entry lease transition = record {
  shard_id = entry.shard_id;
  owner_zone_id = optional_text entry.owner_zone_id;
  owner_endpoint = entry.owner_endpoint;
  owner_epoch = entry.owner_epoch;
  route_version = entry.route_version;
  state = state_code entry.state;
  lease_term = entry.lease_term;
  lease_id = lease;
  lease_expires_at_ms = unix_milli entry.lease_expires_at;
  previous_owner_zone_id = optional_text entry.previous_owner_zone_id;
  transition_id = transition;
  updated_at_ms = unix_milli entry.updated_at;
}

-- `RouteProto`. Its error for an unknown state does not occur, since a state is one of the three.
unfoldable pub route_proto : RouteEntry → Result FeedError EncodedRoute
unfolding encoded_route
route_proto entry = do
  lease ← uuid_bytes entry.lease_id
  transition ← uuid_bytes entry.transition_id
  ok (encoded_route entry lease transition)

unfoldable pub route_protos : List RouteEntry → Result FeedError (List (Option EncodedRoute))
route_protos [] = ok []
route_protos (entry ∷ entries) = do
  encoded ← route_proto entry
  rest ← route_protos entries
  ok (some encoded ∷ rest)

abbrev pub encoded_map : Snapshot → List (Option EncodedRoute) → EncodedSnapshot
encoded_map snapshot entries = record {
  shard_count = snapshot.shard_count;
  hash_algorithm_version = snapshot.hash_algorithm_version;
  assignment_algorithm_version = snapshot.assignment_algorithm_version;
  map_version = snapshot.map_version;
  committed_term = snapshot.committed_term;
  committed_index = snapshot.committed_index;
  entries = entries;
}

unfoldable pub snapshot_proto : Snapshot → Result FeedError EncodedSnapshot
unfolding route_protos
snapshot_proto snapshot =
    if not (length snapshot.entries == shard_count)
    then err FeedError.incomplete_snapshot
    else (do entries ← route_protos snapshot.entries; ok (encoded_map snapshot entries))

-- The `switch` of `decodeRoute`.
unfoldable pub route_state : StateCode → Result FeedError RouteState
route_state StateCode.active = ok RouteState.active
route_state StateCode.preparing = ok RouteState.preparing
route_state StateCode.unassigned = ok RouteState.unassigned
route_state StateCode.unspecified = err FeedError.resync_required

-- The last test of `decodeRoute`.
unfoldable pub active_complete : RouteEntry → Bool
active_complete entry = not (
    is_active entry.state
    && (length entry.owner_zone_id == 0
        || (length entry.owner_endpoint == 0 || length entry.lease_id == 0)))

unfoldable pub decode_some : EncodedRoute → Result FeedError RouteEntry
unfolding route_state format_uuid text_of time_of_milli active_complete
decode_some encoded =
    if encoded.route_version == 0 || encoded.owner_epoch == 0
    then err FeedError.resync_required
    else (do
      state ← route_state encoded.state
      lease ← format_uuid encoded.lease_id
      transition ← format_uuid encoded.transition_id
      let entry : RouteEntry = record {
        shard_id = encoded.shard_id;
        owner_zone_id = text_of encoded.owner_zone_id;
        owner_endpoint = encoded.owner_endpoint;
        owner_epoch = encoded.owner_epoch;
        route_version = encoded.route_version;
        state = state;
        lease_term = encoded.lease_term;
        lease_id = lease;
        lease_expires_at = time_of_milli encoded.lease_expires_at_ms;
        previous_owner_zone_id = text_of encoded.previous_owner_zone_id;
        transition_id = transition;
        updated_at = time_of_milli encoded.updated_at_ms;
      }
      if active_complete entry then ok entry else err FeedError.resync_required)

unfoldable pub decode_route : Option EncodedRoute → Result FeedError RouteEntry
decode_route none = err FeedError.resync_required
decode_route (some encoded) = decode_some encoded

-- Every error of a route is reported as a resynchronization.
unfoldable pub resync : {A : Type 0} → Result FeedError A → Result FeedError A
resync (ok value) = ok value
resync (err failed) = err FeedError.resync_required

unfoldable pub decode_entries : ℕ → List (Option EncodedRoute) → Result FeedError (List RouteEntry)
unfolding resync
decode_entries index [] = ok []
decode_entries index (item ∷ items) = do
  entry ← resync (decode_route item)
  rest ← decode_entries (index + 1) items
  if entry.shard_id == index then ok (entry ∷ rest) else err FeedError.resync_required

unfoldable pub decode_snapshot : Option EncodedSnapshot → Result FeedError Snapshot
decode_snapshot none = err FeedError.resync_required
decode_snapshot (some encoded) =
    if not (encoded.shard_count == shard_count)
      || (not (encoded.hash_algorithm_version == hash_algorithm_version)
          || (not (encoded.assignment_algorithm_version == assignment_algorithm_version)
              || (encoded.map_version == 0 || not (length encoded.entries == shard_count))))
    then err FeedError.resync_required
    else (do
      entries ← decode_entries 0 encoded.entries
      ok (record {
        shard_count = encoded.shard_count;
        hash_algorithm_version = encoded.hash_algorithm_version;
        assignment_algorithm_version = encoded.assignment_algorithm_version;
        map_version = encoded.map_version;
        committed_term = encoded.committed_term;
        committed_index = encoded.committed_index;
        entries = entries;
      }))
