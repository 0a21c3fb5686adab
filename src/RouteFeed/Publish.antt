-- ===== src/RouteFeed/Publish.antt =====
-- The batch that `PublishRoutes` of server/internal/coordinator/publisher/publisher.go makes of
-- two committed maps.
use supernova_classic_farm.Base.{
  Bool, not, ◌&&◌, ◌||◌, List, [], ◌∷◌, Result, ok, err, ◌>>=◌, leb, ◌==◌, if◌then◌else◌, length,
}
use supernova_classic_farm.Routing.{RouteEntry, Snapshot, shard_count, same_identity}
use supernova_classic_farm.RouteFeed.Message.{RouteBatch, FeedError, route_protos}

-- previous == current, with the lease times as instants: Go's `==` on time.Time also compares the
-- location, which is the same for all maps that the route store loads.
unfoldable pub same_entry : RouteEntry → RouteEntry → Bool
same_entry previous current =
    same_identity previous current && previous.lease_expires_at == current.lease_expires_at

-- The loop that collects what has changed, with the current entries in place of their IDs.
unfoldable pub changed_entries : List RouteEntry → List RouteEntry → List RouteEntry
unfolding same_entry
changed_entries previous [] = []
changed_entries [] (entry ∷ current) = []
changed_entries (before ∷ previous) (entry ∷ current) =
    let rest = changed_entries previous current in
    if same_entry before entry then rest else entry ∷ rest

unfoldable pub route_batch : Snapshot → Snapshot → Result FeedError RouteBatch
unfolding changed_entries
route_batch previous current =
    if leb current.map_version previous.map_version
    then err FeedError.version_did_not_advance
    else if not (length previous.entries == shard_count)
        || not (length current.entries == shard_count)
    then err FeedError.incomplete_snapshot
    else if length (changed_entries previous.entries current.entries) == 0
    then err FeedError.no_changed_route
    else (do
      routes ← route_protos (changed_entries previous.entries current.entries)
      ok (record {
        previous_map_version = previous.map_version;
        map_version = current.map_version;
        routes = routes;
      }))
