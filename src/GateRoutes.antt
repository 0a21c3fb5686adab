-- ===== src/GateRoutes.antt =====
-- `CachedRouteResolver` of server/internal/gateway/route_cache.go: the gateway's copy of the
-- routes, filled from the coordinator. A slot that is not present is `none`, a time is Unix
-- nanoseconds, and what the coordinator answers is a parameter.
pub mod Freshness
pub mod Versions
mod Tests
use supernova_classic_farm.Base.{
  ℕ, ◌+◌, Bool, true, false, not, ◌&&◌, ◌||◌, Option, none, some, List, [], ◌∷◌, Result, ok, err,
  ltb, leb, ◌==◌, if◌then◌else◌, length,
}
use supernova_classic_farm.Routing.{shard_count, set}

pub record Route : Type 0 where
  pub shard_id : ℕ
  pub owner_zone_id : List ℕ
  pub owner_epoch : ℕ
  pub route_version : ℕ
  pub map_version : ℕ
  pub lease_expires_at : ℕ
  pub owner_endpoint : List ℕ

pub record RouteSnapshot : Type 0 where
  pub map_version : ℕ
  pub routes : List Route

pub record RouteTable : Type 0 where
  pub map_version : ℕ
  pub slots : ℕ → Option Route

pub data ResolveError : Type 0 where
  snapshots_unsupported source_failed incomplete_snapshot invalid_route : ResolveError
  outside_table not_usable : ResolveError

-- The table of `NewCachedRouteResolver`.
abbrev pub new_route_table : RouteTable
new_route_table = record { map_version = 0; slots = λ shard. none }

unfoldable pub usable : Route → ℕ → Bool
usable route now =
    ltb route.shard_id shard_count
    && not (length route.owner_zone_id == 0)
    && not (length route.owner_endpoint == 0)
    && ltb 0 route.owner_epoch
    && ltb 0 route.route_version
    && ltb 0 route.map_version
    && ltb now route.lease_expires_at

-- The loop of `Warm`: the slots that it has filled so far.
unfoldable pub warm_slots :
    ℕ → ℕ → List Route → (ℕ → Option Route) → Result ResolveError (ℕ → Option Route)
warm_slots now index [] slots = ok slots
warm_slots now index (route ∷ routes) slots =
    let rest = warm_slots now (index + 1) routes (set slots index (some route)) in
    if not (route.shard_id == index) || not (usable route now)
    then err ResolveError.invalid_route
    else rest

-- `Warm` on the answer of `LoadSnapshot`.
unfoldable pub warm : Result ResolveError RouteSnapshot → ℕ → Result ResolveError RouteTable
unfolding warm_slots
warm (err failed) now = err failed
warm (ok snapshot) now =
    if snapshot.map_version == 0 || not (length snapshot.routes == shard_count)
    then err ResolveError.incomplete_snapshot
    else (elim (warm_slots now 0 snapshot.routes (λ shard. none)) [
      | err failed ↦ err failed
      | ok slots ↦ ok (record { map_version = snapshot.map_version; slots = slots })
    ])

-- What `get` makes of a slot.
unfoldable pub usable_slot : Option Route → ℕ → Option Route
usable_slot none now = none
usable_slot (some route) now = if usable route now then some route else none

unfoldable pub get : RouteTable → ℕ → ℕ → Option Route
unfolding usable_slot
get table shard now = usable_slot (table.slots shard) now

-- slot.present && slot.route.RouteVersion > route.RouteVersion
unfoldable pub holds_newer : Option Route → Route → Bool
holds_newer none route = false
holds_newer (some present) route = ltb route.route_version present.route_version

unfoldable pub store : RouteTable → Route → RouteTable
unfolding holds_newer
store table route = if holds_newer (table.slots route.shard_id) route then table else record {
  map_version =
      if ltb table.map_version route.map_version then route.map_version else table.map_version;
  slots = set table.slots route.shard_id (some route);
}

-- What `Resolve` makes of the coordinator's answer.
unfoldable pub accept_answer :
    Result ResolveError Route → RouteTable → ℕ → ℕ → Result ResolveError Route × RouteTable
accept_answer (err failed) table shard later = (err failed, table)
accept_answer (ok route) table shard later =
    if not (route.shard_id == shard) || not (usable route later)
    then (err ResolveError.not_usable, table)
    else (ok route, store table route)

-- The part of `Resolve` under the lock of the shard, which reads the table again. `now` is the
-- time of that read and `later` the time after the answer of the coordinator.
unfoldable pub resolve_locked :
    (ℕ → Result ResolveError Route)
    → RouteTable
    → ℕ
    → ℕ
    → ℕ
    → Result ResolveError Route × RouteTable
unfolding accept_answer
resolve_locked source table shard now later = elim (get table shard now) [
  | some route ↦ (ok route, table)
  | none ↦ accept_answer (source shard) table shard later
]

-- `Resolve` when no other goroutine writes between its two reads.
unfoldable pub resolve :
    (ℕ → Result ResolveError Route)
    → RouteTable
    → ℕ
    → ℕ
    → ℕ
    → Result ResolveError Route × RouteTable
unfolding resolve_locked
resolve source table shard now later =
    if leb shard_count shard
    then (err ResolveError.outside_table, table)
    else (elim (get table shard now) [
      | some route ↦ (ok route, table)
      | none ↦ resolve_locked source table shard now later
    ])

-- slot.present && slot.route.RouteVersion == routeVersion
unfoldable pub holds_version : Option Route → ℕ → Bool
holds_version none version = false
holds_version (some present) version = present.route_version == version

unfoldable pub invalidate_if_version : RouteTable → ℕ → ℕ → RouteTable
unfolding holds_version
invalidate_if_version table shard version =
    if leb shard_count shard || version == 0
    then table
    else if not (holds_version (table.slots shard) version)
    then table
    else record table { slots = set table.slots shard none }
