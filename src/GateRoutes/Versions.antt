-- ===== src/GateRoutes/Versions.antt =====
-- The versions in the gateway's table: what a store keeps, and what an invalidation removes.
use mathlib.Core.Path.{subst}
use supernova_classic_farm.Base.{
  ltb_false→le, ℕ, ◌≤◌, ◌<◌, ◌≡◌, refl, sym, ap, inl, inr, true, false, ◌||◌, Option, none, some,
  Result, arith, leb, ◌==◌, Bool-cases,
}
use supernova_classic_farm.Routing.{shard_count}
use supernova_classic_farm.GateRoutes.{
  Route, RouteTable, ResolveError, usable_slot, get, holds_newer, store, accept_answer,
  resolve_locked, resolve, holds_version, invalidate_if_version,
}

-- Two versions of a slot, of which the second is not older.
abbrev pub NotOlder : Option Route → Option Route → Type 0
NotOlder none after = Unit
NotOlder (some before) none = ⊥
NotOlder (some before) (some after) = before.route_version ≤ after.route_version

NotOlder-refl : (slot : Option Route) → NotOlder slot slot
NotOlder-refl none = tt
NotOlder-refl (some route) = omega arith

stored_slot :
    (slot : Option Route) (route : Route)
    → holds_newer slot route ≡ false
    → NotOlder slot (some route)
unfolding holds_newer
stored_slot none route h = tt
stored_slot (some present) route h = ltb_false→le route.route_version present.route_version h

-- Storing any route in any table never puts an older version into a slot and never empties one,
-- and the version of the map does not fall.
pub store-NotOlder :
    (table : RouteTable) (route : Route) (shard : ℕ)
    → NotOlder (table.slots shard) ((store table route).slots shard)
      × (table.map_version ≤ (store table route).map_version)
unfolding store
store-NotOlder table route shard =
    elim (Bool-cases (holds_newer (table.slots route.shard_id) route)) [
      | inl newer ↦ rw newer (NotOlder-refl (table.slots shard), omega arith)
      | inr older ↦ rw older (
        elim (Bool-cases (shard == route.shard_id)) [
          | inl same ↦ rw same (
              subst (λ s. NotOlder (table.slots s) (some route)) (sym (ground arith))
                (stored_slot (table.slots route.shard_id) route older))
          | inr apart ↦ rw apart (NotOlder-refl (table.slots shard))
        ],
        ground arith,
      )
    ]

resolve_empty :
    (source : ℕ → Result ResolveError Route) (table : RouteTable) (shard now later : ℕ)
    → leb shard_count shard ≡ false
    → get table shard now ≡ none
    → resolve source table shard now later ≡ accept_answer (source shard) table shard later
unfolding resolve resolve_locked
resolve_empty source table shard now later inside e = rw (inside, e, resolve_locked, e) refl

-- After a positive version of a shard is invalidated, resolving the shard asks the coordinator if
-- that version was held; if not, the table is as it was. The slots of other shards stay as they
-- were.
pub invalidate_resolve :
    (source : ℕ → Result ResolveError Route) (table : RouteTable) (shard version now later : ℕ)
    → shard < shard_count
    → 0 < version
    → (holds_version (table.slots shard) version ≡ true
        → resolve source (invalidate_if_version table shard version) shard now later
          ≡ accept_answer (source shard) (invalidate_if_version table shard version) shard later)
      × (holds_version (table.slots shard) version ≡ false
          → invalidate_if_version table shard version ≡ table)
      × ((other : ℕ)
          → (other == shard) ≡ false
          → (invalidate_if_version table shard version).slots other ≡ table.slots other)
unfolding invalidate_if_version resolve resolve_locked get usable_slot
invalidate_resolve source table shard version now later small positive = (
  λ held.
      resolve_empty source (invalidate_if_version table shard version) shard now later inside
        (ap (λ slot. usable_slot slot now) (removed held)),
  λ free. rw (known, free) refl,
  λ other apart. elim (Bool-cases (holds_version (table.slots shard) version)) [
    | inl held ↦ rw (known, held, apart) refl
    | inr free ↦ rw (known, free) refl
  ],
)
  where
    inside : leb shard_count shard ≡ false
    inside = ground arith

    known : (leb shard_count shard || version == 0) ≡ false
    known = ground arith

    self : (shard == shard) ≡ true
    self = ground arith

    removed :
        holds_version (table.slots shard) version ≡ true
        → (invalidate_if_version table shard version).slots shard ≡ none
    removed held = rw (known, held, self) refl
