-- ===== src/GateRoutes/Tests.antt =====
-- Examples for the gateway's routes: a resolved route, a newer one, and its invalidation.
use supernova_classic_farm.Base.{
  ℕ, ◌≤◌, ◌<◌, ◌≡◌, refl, ◌⊎◌, true, false, none, [], ◌∷◌, Result, ok, err, arith, ◌==◌,
  if◌then◌else◌,
}
use supernova_classic_farm.Routing.{shard_count}
use supernova_classic_farm.GateRoutes.{
  Route, RouteTable, ResolveError, new_route_table, usable, get, store, accept_answer,
  resolve_locked, resolve, holds_version, invalidate_if_version,
}
use supernova_classic_farm.GateRoutes.Freshness.{Step, Reached, IsFor, resolve-IsFor}
use supernova_classic_farm.GateRoutes.Versions.{NotOlder, store-NotOlder, invalidate_resolve}

abbrev route_at : ℕ → ℕ → Route
route_at shard version = record {
  shard_id = shard;
  owner_zone_id = b'a' ∷ [];
  owner_epoch = 1;
  route_version = version;
  map_version = version;
  lease_expires_at = 100;
  owner_endpoint = b'e' ∷ [];
}

abbrev source : ℕ → Result ResolveError Route
source shard = if shard == 9 then err ResolveError.source_failed else ok (route_at shard 4)

abbrev filled : RouteTable
filled = (resolve_locked source new_route_table 7 10 11).1

filled-Reached : Reached filled
filled-Reached =
    Reached.next new_route_table filled Reached.start (Step.resolved new_route_table source 7 10 11)

answers : (resolve source filled 7 20 21).0 ≡ ok (route_at 7 4)
unfolding resolve get usable store
answers = refl

resolve-IsFor_example : (7 < shard_count) × (IsFor 7 20 (route_at 7 4) ⊎ IsFor 7 21 (route_at 7 4))
resolve-IsFor_example = resolve-IsFor source filled 7 20 21 (route_at 7 4) filled-Reached answers

store-NotOlder_example :
    NotOlder (filled.slots 7) ((store filled (route_at 7 3)).slots 7)
    × (filled.map_version ≤ (store filled (route_at 7 3)).map_version)
store-NotOlder_example = store-NotOlder filled (route_at 7 3) 7

invalidate_resolve_example :
    (holds_version (filled.slots 7) 4 ≡ true
      → resolve source (invalidate_if_version filled 7 4) 7 30 31
        ≡ accept_answer (source 7) (invalidate_if_version filled 7 4) 7 31)
    × (holds_version (filled.slots 7) 4 ≡ false → invalidate_if_version filled 7 4 ≡ filled)
    × ((other : ℕ)
        → (other == 7) ≡ false
        → (invalidate_if_version filled 7 4).slots other ≡ filled.slots other)
invalidate_resolve_example = invalidate_resolve source filled 7 4 30 31 (omega arith) (omega arith)

invalidated_route : get (invalidate_if_version filled 7 4) 7 30 ≡ none
unfolding get invalidate_if_version resolve_locked usable store
invalidated_route = refl
