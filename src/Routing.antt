-- ===== src/Routing.antt =====
-- server/internal/routing/authorization.go: a Zone's view of which shards it owns, with the
-- types and the hash of routing.go that it uses. A string is its bytes, a time is Unix
-- nanoseconds, and the array of entries is a list that reads as the zero entry outside its range.
pub mod Fencing
pub mod Draining
mod Tests
use Prim.Native.Nat.{bit_xor}
use supernova_classic_farm.Base.{
  ℕ, zero, suc, ◌+◌, ◌*◌, ◌%◌, ◌^◌, Bool, true, false, not, ◌&&◌, ◌||◌, Option, none, some, List,
  [], ◌∷◌, Result, ok, err, ltb, leb, ◌==◌, if◌then◌else◌, length,
}
use supernova_classic_farm.Base.Bytes.{bytes_equal, big_endian64}

abbrev pub shard_count : ℕ
shard_count = 4096

abbrev pub hash_algorithm_version : ℕ
hash_algorithm_version = 1

abbrev pub assignment_algorithm_version : ℕ
assignment_algorithm_version = 1

pub data RouteState : Type 0 where
  unassigned preparing active : RouteState

pub record RouteEntry : Type 0 where
  pub shard_id : ℕ
  pub owner_zone_id : List ℕ
  pub owner_endpoint : List ℕ
  pub owner_epoch : ℕ
  pub route_version : ℕ
  pub state : RouteState
  pub lease_term : ℕ
  pub lease_id : List ℕ
  pub lease_expires_at : ℕ
  pub previous_owner_zone_id : List ℕ
  pub transition_id : List ℕ
  pub updated_at : ℕ

-- The zero value; its state, the empty string, is none that is compared with.
abbrev zero_entry : RouteEntry
zero_entry = record {
  shard_id = 0;
  owner_zone_id = [];
  owner_endpoint = [];
  owner_epoch = 0;
  route_version = 0;
  state = RouteState.unassigned;
  lease_term = 0;
  lease_id = [];
  lease_expires_at = 0;
  previous_owner_zone_id = [];
  transition_id = [];
  updated_at = 0;
}

pub record Snapshot : Type 0 where
  pub shard_count : ℕ
  pub hash_algorithm_version : ℕ
  pub assignment_algorithm_version : ℕ
  pub map_version : ℕ
  pub committed_term : ℕ
  pub committed_index : ℕ
  pub entries : List RouteEntry

pub record AuthorizationSnapshot : Type 0 where
  pub map_version : ℕ
  pub entries : List RouteEntry

pub record AuthorizationTable : Type 0 where
  pub zone_id : List ℕ
  pub table : Option AuthorizationSnapshot
  pub draining : ℕ → Bool
  pub draining_epoch : ℕ → ℕ

pub data Reason : Type 0 where
  shard_draining not_active lease_expired another_zone zone_mismatch epoch_mismatch cannot_drain :
      Reason

-- NotOwnerError
pub record NotOwner : Type 0 where
  pub reason : Reason
  pub shard_id : ℕ
  pub requested_zone : List ℕ
  pub requested_epoch : ℕ
  pub current : RouteEntry

pub data RoutingError : Type 0 where
  zone_id_required incompatible_metadata not_ordered moves_backwards changed_identity : RoutingError
  shard_mismatch not_loaded outside_table : RoutingError
  not_owner : NotOwner → RoutingError

-- `NewAuthorizationTable`
unfoldable pub new_authorization_table : List ℕ → Result RoutingError AuthorizationTable
new_authorization_table [] = err RoutingError.zone_id_required
new_authorization_table (c ∷ zone_id) = ok (record {
  zone_id = c ∷ zone_id;
  table = none;
  draining = λ shard. false;
  draining_epoch = λ shard. 0;
})

unfoldable pub entry_at : List RouteEntry → ℕ → RouteEntry
entry_at [] n = zero_entry
entry_at (entry ∷ entries) zero = entry
entry_at (entry ∷ entries) (suc n) = entry_at entries n

-- hash/fnv: FNV-1a on 64 bits.
fnv1a : ℕ → List ℕ → ℕ
fnv1a sum [] = sum
fnv1a sum (byte ∷ bytes) = fnv1a (bit_xor sum byte * 1099511628211 % 2 ^ 64) bytes

-- `StableHash64`
unfoldable pub stable_hash64 : ℕ → ℕ
unfolding fnv1a
stable_hash64 player_id = fnv1a 14695981039346656037 (big_endian64 player_id)

unfoldable pub shard_for_player : ℕ → ℕ
shard_for_player player_id = stable_hash64 player_id % shard_count

unfoldable pub new_not_owner : RouteEntry → List ℕ → ℕ → Reason → RoutingError
new_not_owner entry zone_id epoch reason = RoutingError.not_owner (record {
  reason = reason;
  shard_id = entry.shard_id;
  requested_zone = zone_id;
  requested_epoch = epoch;
  current = entry;
})

abbrev pub is_active : RouteState → Bool
is_active RouteState.active = true
is_active _ = false

abbrev pub same_state : RouteState → RouteState → Bool
same_state RouteState.unassigned RouteState.unassigned = true
same_state RouteState.preparing RouteState.preparing = true
same_state RouteState.active RouteState.active = true
same_state _ _ = false

-- `before == after` with both expiry times set to zero.
unfoldable pub same_identity : RouteEntry → RouteEntry → Bool
same_identity before after =
    before.shard_id == after.shard_id
    && bytes_equal before.owner_zone_id after.owner_zone_id
    && bytes_equal before.owner_endpoint after.owner_endpoint
    && before.owner_epoch == after.owner_epoch
    && before.route_version == after.route_version
    && same_state before.state after.state
    && before.lease_term == after.lease_term
    && bytes_equal before.lease_id after.lease_id
    && bytes_equal before.previous_owner_zone_id after.previous_owner_zone_id
    && bytes_equal before.transition_id after.transition_id
    && before.updated_at == after.updated_at

-- The loop that checks a refresh of the same version.
unfoldable pub same_routes : List RouteEntry → List RouteEntry → Bool
same_routes before [] = true
same_routes [] (after ∷ entries) = false
same_routes (before ∷ current) (after ∷ entries) =
    same_identity before after
    && leb before.lease_expires_at after.lease_expires_at
    && same_routes current entries

-- The loop that copies the entries, as its check.
unfoldable pub is_ordered : ℕ → List RouteEntry → Bool
is_ordered index [] = true
is_ordered index (entry ∷ entries) = entry.shard_id == index && is_ordered (index + 1) entries

-- A new committed owner epoch of this Zone ends the drain of a shard.
unfoldable pub drain_ends : AuthorizationTable → List RouteEntry → ℕ → Bool
drain_ends current entries shard =
    let entry = entry_at entries shard in
    ltb shard shard_count
    && (current.draining shard
        && (bytes_equal entry.owner_zone_id current.zone_id
            && (ltb (current.draining_epoch shard) entry.owner_epoch && is_active entry.state)))

unfoldable pub adopt : AuthorizationTable → Snapshot → AuthorizationTable
adopt current snapshot = record current {
  table = some (record { map_version = snapshot.map_version; entries = snapshot.entries });
  draining =
      λ shard. if drain_ends current snapshot.entries shard then false else current.draining shard;
  draining_epoch = λ shard.
      if drain_ends current snapshot.entries shard then 0 else current.draining_epoch shard;
}

-- `Replace` after the check of the snapshot itself.
unfoldable pub replace_loaded :
    AuthorizationTable
    → Option AuthorizationSnapshot
    → Snapshot
    → Result RoutingError AuthorizationTable
replace_loaded current none snapshot = ok (adopt current snapshot)
replace_loaded current (some loaded) snapshot =
    if ltb snapshot.map_version loaded.map_version
    then err RoutingError.moves_backwards
    else if loaded.map_version == snapshot.map_version
    then (if not (same_routes loaded.entries snapshot.entries)
        then err RoutingError.changed_identity
        else ok (record current {
          table = some (record { map_version = snapshot.map_version; entries = snapshot.entries });
        }))
    else ok (adopt current snapshot)

-- An error leaves the table as it was.
unfoldable pub replace : AuthorizationTable → Snapshot → Result RoutingError AuthorizationTable
replace current snapshot =
    if not (snapshot.shard_count == shard_count)
      || (not (snapshot.hash_algorithm_version == hash_algorithm_version)
          || (not (snapshot.assignment_algorithm_version == assignment_algorithm_version)
              || (snapshot.map_version == 0 || not (length snapshot.entries == shard_count))))
    then err RoutingError.incompatible_metadata
    else if not (is_ordered 0 snapshot.entries)
    then err RoutingError.not_ordered
    else replace_loaded current current.table snapshot

-- The `switch` of `Validate`, on the entry and the drain marker of the shard.
unfoldable pub validate_entry :
    List ℕ → RouteEntry → Bool → List ℕ → ℕ → ℕ → Result RoutingError (Unit {0})
validate_entry zone_id entry drained requested_zone requested_epoch now =
    let reject = λ (reason : Reason). new_not_owner entry requested_zone requested_epoch reason in
    if drained
    then err (reject Reason.shard_draining)
    else if not (is_active entry.state)
    then err (reject Reason.not_active)
    else if not (ltb now entry.lease_expires_at)
    then err (reject Reason.lease_expired)
    else if not (bytes_equal entry.owner_zone_id zone_id)
    then err (reject Reason.another_zone)
    else if not (bytes_equal requested_zone zone_id)
    then err (reject Reason.zone_mismatch)
    else if not (requested_epoch == entry.owner_epoch)
    then err (reject Reason.epoch_mismatch)
    else ok tt

unfoldable pub validate :
    AuthorizationTable → ℕ → ℕ → List ℕ → ℕ → ℕ → Result RoutingError (Unit {0})
validate current target_player_id shard requested_zone requested_epoch now =
    if leb shard_count shard || not (shard_for_player target_player_id == shard)
    then err RoutingError.shard_mismatch
    else (elim current.table [
      | none ↦ err RoutingError.not_loaded
      | some loaded ↦
          validate_entry current.zone_id (entry_at loaded.entries shard) (current.draining shard)
            requested_zone requested_epoch now
    ])

abbrev pub set : {A : Type 0} → (ℕ → A) → ℕ → A → ℕ → A
set f shard value other = if other == shard then value else f other

-- `BeginDrain`, with the entry that it returns.
unfoldable pub begin_drain :
    AuthorizationTable → ℕ → ℕ → ℕ → Result RoutingError (AuthorizationTable × RouteEntry)
begin_drain current shard owner_epoch now =
    if leb shard_count shard then err RoutingError.outside_table else (elim current.table [
      | none ↦ err RoutingError.not_loaded
      | some loaded ↦
          (let entry = entry_at loaded.entries shard in
            if not (is_active entry.state)
              || (not (bytes_equal entry.owner_zone_id current.zone_id)
                  || (not (entry.owner_epoch == owner_epoch)
                      || not (ltb now entry.lease_expires_at)))
            then err (new_not_owner entry current.zone_id owner_epoch Reason.cannot_drain)
            else ok (
              record current {
                draining = set current.draining shard true;
                draining_epoch = set current.draining_epoch shard owner_epoch;
              },
              entry,
            ))
    ])

unfoldable pub resume : AuthorizationTable → ℕ → AuthorizationTable
resume current shard = if leb shard_count shard then current else record current {
  draining = set current.draining shard false;
  draining_epoch = set current.draining_epoch shard 0;
}

unfoldable pub is_draining : AuthorizationTable → ℕ → ℕ → Bool
is_draining current shard owner_epoch =
    if leb shard_count shard || owner_epoch == 0
    then false
    else current.draining shard && current.draining_epoch shard == owner_epoch

unfoldable pub entry_of : AuthorizationTable → ℕ → Option RouteEntry
entry_of current shard =
    if leb shard_count shard
    then none
    else (elim current.table [ none ↦ none | some loaded ↦ some (entry_at loaded.entries shard) ])
