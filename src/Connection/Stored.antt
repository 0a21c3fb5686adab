-- ===== src/Connection/Stored.antt =====
-- What every stored connection of server/internal/connection/registry.go satisfies, through each
-- operation of the registry.
use mathlib.Core.Path.{subst}
use supernova_classic_farm.Base.{
  ℕ, ◌≡◌, inl, inr, true, List, [], ◌∷◌, arith, ◌==◌, Bool-cases, All, length,
}
use supernova_classic_farm.Base.Bytes.{bytes_equal}
use supernova_classic_farm.Base.Map.{lookup, insert, erase}
use supernova_classic_farm.Connection.{
  PlayerConnection, Connections, Registry, key_of, put_key, delete_key, connections_of,
  put_connection, put_connections,
}
use supernova_classic_farm.Connection.Eviction.{
  evict_keys, keep_player, evict_players, lives, remove_players,
}
use supernova_classic_farm.Routing.{shard_for_player}

same_number : (a b : ℕ) → (a == b) ≡ true → a ≡ b
same_number a b h = ground arith

module _ (P : ℕ → List ℕ × PlayerConnection → Type 0) where
  -- What holds of every connection that is stored.
  abbrev pub AllStored : Registry → Type 0
  AllStored registry = All (λ entry. All (P entry.0) entry.1) registry

  pub found-All :
      (registry : Registry) (player_id : ℕ)
      → AllStored registry
      → All (P player_id) (connections_of registry player_id)
  unfolding connections_of lookup
  found-All [] player_id h = tt
  found-All (entry ∷ entries) player_id h = elim (Bool-cases (entry.0 == player_id)) [
    | inl e ↦ rw e (subst (λ p. All (P p) entry.1) (same_number entry.0 player_id e) h.0)
    | inr e ↦ rw e (found-All entries player_id h.1)
  ]

  pub insert-All :
      (registry : Registry) (player_id : ℕ) (by_key : Connections)
      → AllStored registry
      → All (P player_id) by_key
      → AllStored (insert player_id by_key registry)
  unfolding insert
  insert-All [] player_id by_key h k = (k, tt)
  insert-All (entry ∷ entries) player_id by_key h k = elim (Bool-cases (entry.0 == player_id)) [
    | inl e ↦ rw e (k, h.1)
    | inr e ↦ rw e (h.0, insert-All entries player_id by_key h.1 k)
  ]

  pub erase-All :
      (registry : Registry) (player_id : ℕ)
      → AllStored registry
      → AllStored (erase player_id registry)
  unfolding erase
  erase-All [] player_id h = tt
  erase-All (entry ∷ entries) player_id h = elim (Bool-cases (entry.0 == player_id)) [
    | inl e ↦ rw e (erase-All entries player_id h.1)
    | inr e ↦ rw e (h.0, erase-All entries player_id h.1)
  ]

  pub put_key-All :
      (player_id : ℕ) (key : List ℕ) (conn : PlayerConnection) (by_key : Connections)
      → All (P player_id) by_key
      → P player_id (key, conn)
      → All (P player_id) (put_key key conn by_key)
  unfolding put_key
  put_key-All player_id key conn [] h k = (k, tt)
  put_key-All player_id key conn (entry ∷ entries) h k =
      elim (Bool-cases (bytes_equal entry.0 key)) [
        | inl e ↦ rw e (k, h.1)
        | inr e ↦ rw e (h.0, put_key-All player_id key conn entries h.1 k)
      ]

  pub delete_key-All :
      (player_id : ℕ) (key : List ℕ) (by_key : Connections)
      → All (P player_id) by_key
      → All (P player_id) (delete_key key by_key)
  unfolding delete_key
  delete_key-All player_id key [] h = tt
  delete_key-All player_id key (entry ∷ entries) h = elim (Bool-cases (bytes_equal entry.0 key)) [
    | inl e ↦ rw e (delete_key-All player_id key entries h.1)
    | inr e ↦ rw e (h.0, delete_key-All player_id key entries h.1)
  ]

  evict_keys-All :
      (player_id now : ℕ) (by_key : Connections)
      → All (P player_id) by_key
      → All (P player_id) (evict_keys now by_key).0
  unfolding evict_keys
  evict_keys-All player_id now [] h = tt
  evict_keys-All player_id now (entry ∷ entries) h =
      elim (Bool-cases (lives entry.1.expires_at now)) [
        | inl e ↦ rw e (h.0, evict_keys-All player_id now entries h.1)
        | inr e ↦ rw e (evict_keys-All player_id now entries h.1)
      ]

  keep_player-All :
      (player_id : ℕ) (by_key : Connections) (registry : Registry)
      → All (P player_id) by_key
      → AllStored registry
      → AllStored (keep_player player_id by_key registry)
  keep_player-All player_id [] registry h k = k
  keep_player-All player_id (entry ∷ entries) registry h k = (h, k)

  pub evict_players-All :
      (now : ℕ) (registry : Registry)
      → AllStored registry
      → AllStored (evict_players now registry).0
  unfolding evict_players
  evict_players-All now [] h = tt
  evict_players-All now (entry ∷ entries) h =
      keep_player-All entry.0 (evict_keys now entry.1).0 (evict_players now entries).0
        (evict_keys-All entry.0 now entry.1 h.0) (evict_players-All now entries h.1)

  pub remove_players-All :
      (shard_id : ℕ) (registry : Registry)
      → AllStored registry
      → AllStored (remove_players shard_id registry).0
  unfolding remove_players
  remove_players-All shard_id [] h = tt
  remove_players-All shard_id (entry ∷ entries) h =
      elim (Bool-cases (shard_for_player entry.0 == shard_id)) [
        | inl e ↦ rw e (remove_players-All shard_id entries h.1)
        | inr e ↦ rw e (h.0, remove_players-All shard_id entries h.1)
      ]

  pub put_connection-All :
      (registry : Registry) (conn : PlayerConnection)
      → AllStored registry
      → P conn.player_id (key_of conn, conn)
      → AllStored (put_connection registry conn)
  unfolding put_connection
  put_connection-All registry conn h k = insert-All registry conn.player_id _ h (
      put_key-All conn.player_id (key_of conn) conn (connections_of registry conn.player_id)
        (found-All registry conn.player_id h) k)

  pub put_connections-All :
      (registry : Registry) (player_id : ℕ) (by_key : Connections)
      → AllStored registry
      → All (P player_id) by_key
      → AllStored (put_connections registry player_id by_key)
  unfolding put_connections
  put_connections-All registry player_id by_key h k = elim (Bool-cases (length by_key == 0)) [
    | inl e ↦ rw e (erase-All registry player_id h)
    | inr e ↦ rw e (insert-All registry player_id by_key h k)
  ]
