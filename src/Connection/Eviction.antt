-- ===== src/Connection/Eviction.antt =====
-- `EvictExpired`, `RemoveShard`, `List`, `ListAll` and `Has` of
-- server/internal/connection/registry.go, with the order that sortConnections makes.
use supernova_classic_farm.Base.{
  ℕ, Bool, true, false, not, ◌&&◌, ◌||◌, Option, none, some, List, [], ◌∷◌, ◌++◌, ltb, ◌==◌,
  if◌then◌else◌, length,
}
use supernova_classic_farm.Base.Bytes.{bytes_equal}
use supernova_classic_farm.Routing.{shard_for_player}
use supernova_classic_farm.Connection.{PlayerConnection, Connections, Registry, connections_of}

-- The order `<` of strings.
unfoldable pub bytes_less : List ℕ → List ℕ → Bool
bytes_less left [] = false
bytes_less [] (c ∷ right) = true
bytes_less (b ∷ left) (c ∷ right) = ltb b c || (b == c && bytes_less left right)

unfoldable pub connection_less : PlayerConnection → PlayerConnection → Bool
unfolding bytes_less bytes_equal
connection_less left right =
    if not (bytes_equal left.gate_id right.gate_id)
    then bytes_less left.gate_id right.gate_id
    else bytes_less left.connection_id right.connection_id

unfoldable pub insert_connection : PlayerConnection → List PlayerConnection → List PlayerConnection
unfolding connection_less
insert_connection conn [] = conn ∷ []
insert_connection conn (other ∷ others) =
    (let rest = insert_connection conn others in
      if connection_less other conn then other ∷ rest else conn ∷ other ∷ others)

unfoldable pub sort_connections : List PlayerConnection → List PlayerConnection
unfolding insert_connection
sort_connections [] = []
sort_connections (conn ∷ conns) = insert_connection conn (sort_connections conns)

abbrev pub conns_of : Connections → List PlayerConnection
conns_of [] = []
conns_of (entry ∷ entries) = entry.1 ∷ conns_of entries

abbrev pub lives : Option ℕ → ℕ → Bool
lives none now = false
lives (some expires_at) now = ltb now expires_at

-- The inner loop of `EvictExpired`: what is kept and what is removed.
unfoldable pub evict_keys : ℕ → Connections → Connections × List PlayerConnection
evict_keys now [] = ([], [])
evict_keys now (entry ∷ entries) =
    (let rest = evict_keys now entries in
      if lives entry.1.expires_at now then (entry ∷ rest.0, rest.1) else (rest.0, entry.1 ∷ rest.1))

-- A player without connections is deleted.
abbrev pub keep_player : ℕ → Connections → Registry → Registry
keep_player player_id [] registry = registry
keep_player player_id (entry ∷ entries) registry = (player_id, entry ∷ entries) ∷ registry

-- The outer loop.
unfoldable pub evict_players : ℕ → Registry → Registry × List PlayerConnection
unfolding evict_keys
evict_players now [] = ([], [])
evict_players now (entry ∷ entries) =
    let kept = evict_keys now entry.1 in
    let rest = evict_players now entries in (keep_player entry.0 kept.0 rest.0, kept.1 ++ rest.1)

-- `EvictExpired`
unfoldable pub evict_connections : Registry → ℕ → Registry × List PlayerConnection
unfolding evict_players sort_connections
evict_connections registry now =
    let gone = evict_players now registry in (gone.0, sort_connections gone.1)

-- The loop of `RemoveShard`.
unfoldable pub remove_players : ℕ → Registry → Registry × List PlayerConnection
unfolding shard_for_player
remove_players shard_id [] = ([], [])
remove_players shard_id (entry ∷ entries) =
    let rest = remove_players shard_id entries in
    (if shard_for_player entry.0 == shard_id
      then (rest.0, conns_of entry.1 ++ rest.1)
      else (entry ∷ rest.0, rest.1))

unfoldable pub remove_shard : Registry → ℕ → Registry × List PlayerConnection
unfolding remove_players sort_connections
remove_shard registry shard_id =
    let gone = remove_players shard_id registry in (gone.0, sort_connections gone.1)

-- `List`
unfoldable pub list_connections : Registry → ℕ → List PlayerConnection
unfolding sort_connections connections_of
list_connections registry player_id =
    sort_connections (conns_of (connections_of registry player_id))

abbrev pub all_conns : Registry → List PlayerConnection
all_conns [] = []
all_conns (entry ∷ entries) = conns_of entry.1 ++ all_conns entries

unfoldable pub list_all : Registry → List PlayerConnection
unfolding sort_connections
list_all registry = sort_connections (all_conns registry)

-- `Has`
unfoldable pub has_connection : Registry → ℕ → Bool
unfolding connections_of
has_connection registry player_id = ltb 0 (length (connections_of registry player_id))
