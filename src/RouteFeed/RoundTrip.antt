-- ===== src/RouteFeed/RoundTrip.antt =====
-- Decoding what was encoded: a route, and the whole map.
use supernova_classic_farm.Base.{
  ℕ, suc, ◌+◌, ◌%◌, ◌≡◌, refl, ap, ◌⊎◌, inl, inr, true, false, ◌||◌, Option, some, List, [], ◌∷◌,
  ok, arith, ◌==◌, length, All,
}
use supernova_classic_farm.Base.Bytes.{hex_encode, remove_dashes}
use supernova_classic_farm.Base.Text.{trim_space-Graphic}
use supernova_classic_farm.Base.Uuid.{
  dashed, IsByte, hex_encode-IsSign, length-hex_encode, hex_decode-hex_encode, remove_dashes-dashed,
  dashed-IsGraphic,
}
use supernova_classic_farm.Routing.{
  RouteState, RouteEntry, Snapshot, shard_count, hash_algorithm_version,
  assignment_algorithm_version,
}
use supernova_classic_farm.RouteFeed.Message.{
  EncodedRoute, EncodedSnapshot, unix_milli, time_of_milli, sixteen_bytes, uuid_bytes, format_uuid,
  state_code, route_state, optional_text, text_of, encoded_route, encoded_map, route_proto,
  route_protos, snapshot_proto, active_complete, decode_some, decode_route, resync, decode_entries,
  decode_snapshot,
}

-- A text that is empty or that of a UUID in the usual form.
abbrev pub IsUuidText : List ℕ → Type 0
IsUuidText text =
    (text ≡ [])
    ⊎ ((bytes : List ℕ) × (length bytes ≡ 16)
        × All IsByte bytes
        × (text ≡ dashed (hex_encode bytes)))

-- A route that a message can carry: versions from 1 on, its times at a full millisecond, UUIDs in
-- the usual form and, when it is active, an owner.
pub record IsCarried (entry : RouteEntry) : Type 0 where
  pub versioned : (entry.route_version == 0 || entry.owner_epoch == 0) ≡ false
  pub lease : IsUuidText entry.lease_id
  pub transition : IsUuidText entry.transition_id
  pub lease_at_ms : entry.lease_expires_at % 1000000 ≡ 0
  pub updated_at_ms : entry.updated_at % 1000000 ≡ 0
  pub complete : active_complete entry ≡ true

uuid_bytes-format :
    (bytes : List ℕ)
    → length bytes ≡ 16
    → All IsByte bytes
    → uuid_bytes (dashed (hex_encode bytes)) ≡ ok bytes
unfolding uuid_bytes sixteen_bytes
uuid_bytes-format bytes size h =
    let signs = hex_encode-IsSign bytes h in
    let digits = length-hex_encode bytes in
    let long : length (hex_encode bytes) ≡ 32 = omega arith in
    rw
      (
        trim_space-Graphic (dashed (hex_encode bytes)) (dashed-IsGraphic (hex_encode bytes) signs),
        remove_dashes-dashed (hex_encode bytes) long signs,
        long,
        hex_decode-hex_encode bytes h,
        size,
      )
      refl

format_uuid-sixteen :
    (bytes : List ℕ) → length bytes ≡ 16 → format_uuid bytes ≡ ok (dashed (hex_encode bytes))
unfolding format_uuid
format_uuid-sixteen bytes size = rw size refl

-- The bytes of a UUID's text, and the text of those bytes.
uuid_round_trip :
    (text : List ℕ)
    → IsUuidText text
    → (bytes : List ℕ) × (uuid_bytes text ≡ ok bytes) × (format_uuid bytes ≡ ok text)
unfolding uuid_bytes format_uuid remove_dashes
uuid_round_trip text (inl e) = ([], rw e trimmed, rw e refl)
  where
    trimmed : uuid_bytes [] ≡ ok []
    trimmed = rw (uuid_bytes, trim_space-Graphic [] tt, remove_dashes) refl
uuid_round_trip text (inr (bytes, size, h, e)) =
    (bytes, rw e (uuid_bytes-format bytes size h), rw e (format_uuid-sixteen bytes size))

route_state-state_code : (state : RouteState) → route_state (state_code state) ≡ ok state
unfolding route_state state_code
route_state-state_code RouteState.active = refl
route_state-state_code RouteState.preparing = refl
route_state-state_code RouteState.unassigned = refl

text_of-optional_text : (text : List ℕ) → text_of (optional_text text) ≡ text
unfolding text_of optional_text
text_of-optional_text [] = refl
text_of-optional_text (c ∷ text) = refl

at_full_milli : (time : ℕ) → time % 1000000 ≡ 0 → time_of_milli (unix_milli time) ≡ time
unfolding time_of_milli unix_milli
at_full_milli time h = omega arith

pub decode_route-route_proto :
    (entry : RouteEntry)
    → IsCarried entry
    → (encoded : EncodedRoute) × (route_proto entry ≡ ok encoded)
      × (decode_route (some encoded) ≡ ok entry)
unfolding route_proto encoded_route decode_route decode_some
decode_route-route_proto entry c =
    let (lease, lease_in, lease_out) = uuid_round_trip entry.lease_id c.lease in
    let (transition, transition_in, transition_out) =
      uuid_round_trip entry.transition_id c.transition in
    (
      encoded_route entry lease transition,
      rw (lease_in, transition_in) refl,
      rw
          (
            c.versioned,
            route_state-state_code entry.state,
            lease_out,
            transition_out,
            text_of-optional_text entry.owner_zone_id,
            text_of-optional_text entry.previous_owner_zone_id,
            at_full_milli entry.lease_expires_at c.lease_at_ms,
            at_full_milli entry.updated_at c.updated_at_ms,
            c.complete,
          )
          refl,
    )

-- Every entry can be carried and stands at the index of its shard.
abbrev pub AreCarried : ℕ → List RouteEntry → Type 0
AreCarried index [] = Unit
AreCarried index (entry ∷ entries) =
    IsCarried entry × (entry.shard_id ≡ index) × AreCarried (index + 1) entries

eq_test : (m n : ℕ) → m ≡ n → (m == n) ≡ true
eq_test m n h = ground arith

decode_entries-route_protos :
    (index : ℕ) (entries : List RouteEntry)
    → AreCarried index entries
    → (items : List (Option EncodedRoute)) × (route_protos entries ≡ ok items)
      × (decode_entries index items ≡ ok entries)
      × (length items ≡ length entries)
unfolding route_protos decode_entries resync
decode_entries-route_protos index [] h = ([], refl, refl, refl)
decode_entries-route_protos index (entry ∷ entries) h =
    let (carried, at, others) = h in
    let (encoded, out, back) = decode_route-route_proto entry carried in
    let (items, outs, backs, size) = decode_entries-route_protos (index + 1) entries others in
    (
      some encoded ∷ items,
      rw (out, outs) refl,
      rw (back, backs, eq_test entry.shard_id index at) refl,
      ap suc size,
    )

-- A committed map: of the size and algorithms that the build knows.
pub record IsCommitted (snapshot : Snapshot) : Type 0 where
  pub shards : snapshot.shard_count ≡ shard_count
  pub hash : snapshot.hash_algorithm_version ≡ hash_algorithm_version
  pub assignment : snapshot.assignment_algorithm_version ≡ assignment_algorithm_version
  pub version : (snapshot.map_version == 0) ≡ false
  pub full : length snapshot.entries ≡ shard_count
  pub entries_carried : AreCarried 0 snapshot.entries

-- A committed map, with routes whose UUIDs have the usual form and whose times are at a full
-- millisecond, is encoded without an error, and decoding the message gives the map back.
pub decode_snapshot-snapshot_proto :
    (snapshot : Snapshot)
    → IsCommitted snapshot
    → (encoded : EncodedSnapshot) × (snapshot_proto snapshot ≡ ok encoded)
      × (decode_snapshot (some encoded) ≡ ok snapshot)
unfolding snapshot_proto decode_snapshot
decode_snapshot-snapshot_proto snapshot c =
    let (items, outs, backs, size) =
      decode_entries-route_protos 0 snapshot.entries c.entries_carried in
    (
      encoded_map snapshot items,
      rw (c.full, outs) refl,
      rw (c.shards, c.hash, c.assignment, c.version, size, c.full, backs) refl,
    )
