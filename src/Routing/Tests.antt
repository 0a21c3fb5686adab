-- ===== src/Routing/Tests.antt =====
-- Examples for the authorization table: a Zone "a" that owns one of the first shards at epoch 5.
use supernova_classic_farm.Base.Bytes.{big_endian64, bytes_equal}
use supernova_classic_farm.Base.{ℕ, ◌≡◌, refl, true, false, some, [], ◌∷◌, ok}
use supernova_classic_farm.Routing.{
  RouteState, RouteEntry, AuthorizationTable, begin_drain, resume, validate, set, validate_entry,
  shard_for_player, stable_hash64, entry_at,
}
use supernova_classic_farm.Routing.Fencing.{Authorized, validate-Authorized, validate_exclusive}
use supernova_classic_farm.Routing.Draining.{Continues, drain_blocks}

abbrev entry_of_shard : ℕ → RouteEntry
entry_of_shard shard = record {
  shard_id = shard;
  owner_zone_id = b'a' ∷ [];
  owner_endpoint = [];
  owner_epoch = 5;
  route_version = 1;
  state = RouteState.active;
  lease_term = 1;
  lease_id = [];
  lease_expires_at = 1000;
  previous_owner_zone_id = [];
  transition_id = [];
  updated_at = 0;
}

abbrev zone_table : AuthorizationTable
zone_table = record {
  zone_id = b'a' ∷ [];
  table = some (record {
    map_version = 3;
    entries = entry_of_shard 0 ∷ entry_of_shard 1 ∷ entry_of_shard 2 ∷ [];
  });
  draining = λ shard. false;
  draining_epoch = λ shard. 0;
}

abbrev epoch : ℕ
epoch = 5

lets_through : validate zone_table 81 2 (b'a' ∷ []) 5 10 ≡ ok tt
unfolding validate shard_for_player stable_hash64 big_endian64 validate_entry entry_at bytes_equal
lets_through = refl

validate-Authorized_example : Authorized zone_table 81 2 (b'a' ∷ []) 5 10
validate-Authorized_example = validate-Authorized zone_table 81 2 (b'a' ∷ []) 5 10 lets_through

validate_exclusive_example : (zone_table.zone_id ≡ zone_table.zone_id) × (epoch ≡ epoch)
validate_exclusive_example =
    validate_exclusive zone_table zone_table 81 81 2 (b'a' ∷ []) (b'a' ∷ []) 5 5 10 10 refl
      lets_through lets_through

abbrev drained_zone : AuthorizationTable
drained_zone = record zone_table {
  draining = set zone_table.draining 2 true;
  draining_epoch = set zone_table.draining_epoch 2 5;
}

begins : begin_drain zone_table 2 5 10 ≡ ok (drained_zone, entry_of_shard 2)
unfolding begin_drain entry_at bytes_equal
begins = refl

goes_on : Continues 2 5 drained_zone (resume drained_zone 7)
goes_on =
    Continues.resumed drained_zone (resume drained_zone 7) 7 refl
      (Continues.done (resume drained_zone 7))

drain_blocks_example : ¬ (validate (resume drained_zone 7) 81 2 (b'a' ∷ []) 5 20 ≡ ok tt)
drain_blocks_example =
    drain_blocks zone_table drained_zone (resume drained_zone 7) 2 5 10 (entry_of_shard 2) 81
      (b'a' ∷ []) 5 20 begins goes_on
