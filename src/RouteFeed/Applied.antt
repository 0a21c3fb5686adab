-- ===== src/RouteFeed/Applied.antt =====
-- A client that holds one committed map and applies the batch between it and the next one then
-- holds the next one.
use supernova_classic_farm.Base.{
  opened, ℕ, ◌+◌, ◌<◌, ◌≡◌, refl, sym, ap, ◌∙◌, true, false, not, ◌||◌, Option, List, [], ok, arith,
  leb, ◌==◌, length, ok_unique, >>=-eq-ok, leb_false→lt, lt→leb_false,
}
use supernova_classic_farm.Routing.{Snapshot, shard_count}
use supernova_classic_farm.RouteFeed.Message.{EncodedRoute, RouteBatch, route_protos}
use supernova_classic_farm.RouteFeed.Cache.{advance_map}
use supernova_classic_farm.RouteFeed.Publish.{changed_entries, route_batch}
use supernova_classic_farm.RouteFeed.RoundTrip.{AreCarried}
use supernova_classic_farm.RouteFeed.Changes.{AreNewer, applies}

-- What the batch of two maps does to a client's copy of the first.
abbrev pub moved_on : Snapshot → Snapshot → Snapshot
moved_on loaded current = record loaded {
  entries = current.entries;
  map_version = current.map_version;
}

abbrev made_batch : Snapshot → Snapshot → List (Option EncodedRoute) → RouteBatch
made_batch previous current items = record {
  previous_map_version = previous.map_version;
  map_version = current.map_version;
  routes = items;
}

-- What a batch that was made shows of its two maps.
pub record IsBatch (previous current : Snapshot) (batch : RouteBatch) : Type 0 where
  pub advanced : previous.map_version < current.map_version
  pub full : length current.entries ≡ shard_count
  pub starts_at : batch.previous_map_version ≡ previous.map_version
  pub ends_at : batch.map_version ≡ current.map_version
  pub encodes : route_protos (changed_entries previous.entries current.entries) ≡ ok batch.routes
  pub changes : (length (changed_entries previous.entries current.entries) == 0) ≡ false

sizes : (m n : ℕ) → (not (m == shard_count) || not (n == shard_count)) ≡ false → n ≡ shard_count
sizes m n h = ground arith

pub route_batch-IsBatch :
    (previous current : Snapshot) (batch : RouteBatch)
    → route_batch previous current ≡ ok batch
    → IsBatch previous current batch
unfolding route_batch
route_batch-IsBatch previous current batch h =
    let (a, h1) = opened (leb current.map_version previous.map_version) _ _ h in
    let (b, h2) =
      opened
        (not (length previous.entries == shard_count)
          || not (length current.entries == shard_count))
        _ _ h1 in
    let (c, h3) = opened (length (changed_entries previous.entries current.entries) == 0) _ _ h2 in
    let (items, out, h4) =
      >>=-eq-ok (route_protos (changed_entries previous.entries current.entries)) _ h3 in
    let same = ok_unique (ok (made_batch previous current items)) refl h4 in
    record {
      advanced = leb_false→lt current.map_version previous.map_version a;
      full = sizes _ _ b;
      starts_at = ap (λ made. made.previous_map_version) (sym same);
      ends_at = ap (λ made. made.map_version) (sym same);
      encodes = out ∙ ap (λ made. ok made.routes) same;
      changes = c;
    }

nonempty : (n last : ℕ) → last ≡ 0 + n → (n == 0) ≡ false → (last == 0) ≡ false
nonempty n last e h = ground arith

-- A client that holds the version and entries of one map and applies the batch that the
-- coordinator made of this map and the next then holds the version and entries of the next, if
-- that one is well formed and gives every changed route a greater version.
pub advance_map-route_batch :
    (previous current loaded : Snapshot) (batch : RouteBatch)
    → route_batch previous current ≡ ok batch
    → AreCarried 0 current.entries
    → AreNewer previous.entries current.entries
    → loaded.map_version ≡ previous.map_version
    → loaded.entries ≡ previous.entries
    → advance_map loaded batch ≡ ok (moved_on loaded current)
unfolding advance_map
advance_map-route_batch previous current loaded batch made carried newer version same =
    let m = route_batch-IsBatch previous current batch made in
    let (items, last, encodes, applied, size) =
      applies [] previous.entries current.entries [] (let f = m.full in omega arith) carried newer
        tt in
    let routes = ok_unique _ (m.encodes) encodes in
    rw
      (
        m.ends_at,
        m.starts_at,
        version,
        lt→leb_false _ _ m.advanced,
        eq_refl previous.map_version,
        same,
        routes,
        applied,
        nonempty _ _ size m.changes,
      )
      refl
  where
    eq_refl : (n : ℕ) → (n == n) ≡ true
    eq_refl n = ground arith
