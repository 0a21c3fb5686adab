-- ===== src/Connection.antt =====
-- The live connections of the players that a Zone owns: `Registry` of
-- server/internal/connection/registry.go. A string is its bytes, a time Unix nanoseconds, none the
-- zero Time. `ValidGateEndpoint`, which parses a URL, is an argument. The order of connections that
-- sortConnections does not tell apart, of several players, is that of the registry here.
pub mod Eviction
pub mod Stored
pub mod Agreement
pub mod History
mod Tests
use supernova_classic_farm.Base.{
  ℕ, Bool, true, false, not, ◌&&◌, ◌||◌, Option, none, some, List, [], ◌∷◌, ◌++◌, Result, ok, err,
  ltb, leb, ◌==◌, if◌then◌else◌, length,
}
use supernova_classic_farm.Base.Bytes.{bytes_equal}
use supernova_classic_farm.Base.Text.{trim_space}
use supernova_classic_farm.Base.Map.{Map, lookup, insert, erase}
use supernova_classic_farm.Routing.{shard_for_player}
use supernova_classic_farm.Visit.{legacy_gate}

pub record PlayerConnection : Type 0 where
  pub player_id : ℕ
  pub gate_id : List ℕ
  pub gate_endpoint : List ℕ
  pub connection_id : List ℕ
  pub expires_at : Option ℕ

pub data ConnectionError : Type 0 where
  invalid_connection connection_mismatch : ConnectionError

-- The byte 0 stands between the two IDs.
unfoldable pub connection_key : List ℕ → List ℕ → List ℕ
connection_key gate_id connection_id = gate_id ++ 0 ∷ connection_id

abbrev pub key_of : PlayerConnection → List ℕ
key_of conn = connection_key conn.gate_id conn.connection_id

-- The map of one player, by key.
abbrev pub Connections : Type 0
Connections = List (List ℕ × PlayerConnection)

-- The field `players`.
abbrev pub Registry : Type 0
Registry = Map Connections

unfoldable pub find_key : List ℕ → Connections → Option PlayerConnection
find_key key [] = none
find_key key (entry ∷ entries) =
    if bytes_equal entry.0 key then some entry.1 else find_key key entries

unfoldable pub put_key : List ℕ → PlayerConnection → Connections → Connections
put_key key conn [] = (key, conn) ∷ []
put_key key conn (entry ∷ entries) =
    (let rest = put_key key conn entries in
      if bytes_equal entry.0 key then (key, conn) ∷ entries else entry ∷ rest)

unfoldable pub delete_key : List ℕ → Connections → Connections
delete_key key [] = []
delete_key key (entry ∷ entries) =
    (let rest = delete_key key entries in if bytes_equal entry.0 key then rest else entry ∷ rest)

abbrev pub found_connections : Option Connections → Connections
found_connections none = []
found_connections (some by_key) = by_key

unfoldable pub connections_of : Registry → ℕ → Connections
connections_of registry player_id = found_connections (lookup player_id registry)

abbrev pub blank : List ℕ → Bool
blank text = length (trim_space text) == 0

abbrev pub zero_time : Option ℕ → Bool
zero_time none = true
zero_time (some at) = false

-- `validate`, whether it fails.
unfoldable pub is_invalid : (List ℕ → Bool) → PlayerConnection → Bool
is_invalid valid_endpoint conn =
    conn.player_id == 0
    || (blank conn.gate_id
        || (not (valid_endpoint conn.gate_endpoint)
            || (blank conn.connection_id || zero_time conn.expires_at)))

-- A connection of the same gate with another address.
unfoldable pub conflicts : PlayerConnection → PlayerConnection → Bool
conflicts existing conn =
    bytes_equal existing.gate_id conn.gate_id
    && not (bytes_equal existing.gate_endpoint conn.gate_endpoint)

abbrev pub any_conflict : Connections → PlayerConnection → Bool
any_conflict [] conn = false
any_conflict (entry ∷ entries) conn = conflicts entry.1 conn || any_conflict entries conn

-- The two loops of `Register`.
unfoldable pub registry_conflict : Registry → PlayerConnection → Bool
unfolding conflicts
registry_conflict [] conn = false
registry_conflict (entry ∷ entries) conn =
    any_conflict entry.1 conn || registry_conflict entries conn

-- A missing connection is not at another address.
abbrev pub elsewhere : Option PlayerConnection → List ℕ → Bool
elsewhere none endpoint = false
elsewhere (some existing) endpoint = not (bytes_equal existing.gate_endpoint endpoint)

unfoldable pub with_endpoint : PlayerConnection → PlayerConnection
with_endpoint conn =
    if blank conn.gate_endpoint then record conn { gate_endpoint = legacy_gate } else conn

unfoldable pub put_connection : Registry → PlayerConnection → Registry
unfolding put_key connections_of
put_connection registry conn =
    insert conn.player_id (put_key (key_of conn) conn (connections_of registry conn.player_id))
      registry

-- `Register` with the address filled in.
unfoldable pub register_at :
    (List ℕ → Bool) → Registry → PlayerConnection → Result ConnectionError Registry
unfolding is_invalid registry_conflict find_key put_connection connections_of
register_at valid_endpoint registry conn =
    if is_invalid valid_endpoint conn
    then err ConnectionError.invalid_connection
    else if registry_conflict registry conn
    then err ConnectionError.connection_mismatch
    else if elsewhere (find_key (key_of conn) (connections_of registry conn.player_id))
        conn.gate_endpoint
    then err ConnectionError.connection_mismatch
    else ok (put_connection registry conn)

unfoldable pub register :
    (List ℕ → Bool) → Registry → PlayerConnection → Result ConnectionError Registry
unfolding register_at with_endpoint
register valid_endpoint registry conn = register_at valid_endpoint registry (with_endpoint conn)

-- Only the same address can be refreshed.
abbrev pub not_at : Option PlayerConnection → List ℕ → Bool
not_at none endpoint = true
not_at (some existing) endpoint = not (bytes_equal existing.gate_endpoint endpoint)

-- The first of the optional addresses.
abbrev pub first_endpoint : List (List ℕ) → List ℕ
first_endpoint [] = legacy_gate
first_endpoint (endpoint ∷ others) = endpoint

unfoldable pub refresh_connection :
    (List ℕ → Bool) → Registry → PlayerConnection → Result ConnectionError Registry
unfolding is_invalid find_key put_connection connections_of
refresh_connection valid_endpoint registry conn =
    if is_invalid valid_endpoint conn
    then err ConnectionError.invalid_connection
    else if not_at (find_key (key_of conn) (connections_of registry conn.player_id))
        conn.gate_endpoint
    then err ConnectionError.connection_mismatch
    else ok (put_connection registry conn)

-- `Refresh`
unfoldable pub refresh_lease :
    (List ℕ → Bool)
    → Registry
    → ℕ
    → List ℕ
    → List ℕ
    → Option ℕ
    → List (List ℕ)
    → Result ConnectionError Registry
unfolding refresh_connection
refresh_lease valid_endpoint registry player_id gate_id connection_id expires_at endpoints =
    refresh_connection valid_endpoint registry (record {
      player_id = player_id;
      gate_id = gate_id;
      gate_endpoint = first_endpoint endpoints;
      connection_id = connection_id;
      expires_at = expires_at;
    })

unfoldable pub put_connections : Registry → ℕ → Connections → Registry
put_connections registry player_id by_key =
    if length by_key == 0 then erase player_id registry else insert player_id by_key registry

unfoldable pub unregister : Registry → ℕ → List ℕ → List ℕ → Registry
unfolding delete_key put_connections
unregister registry player_id gate_id connection_id =
    if player_id == 0 || (blank gate_id || blank connection_id)
    then registry
    else (elim (lookup player_id registry) [
      | none ↦ registry
      | some by_key ↦
          put_connections registry player_id
            (delete_key (connection_key gate_id connection_id) by_key)
    ])
