-- ===== src/Connection/History.antt =====
-- The registry of connections (server/internal/connection/registry.go) after any calls.
use supernova_classic_farm.Base.{
  ℕ, ◌≡◌, refl, inl, inr, Bool, ◌||◌, Option, none, some, List, [], ◌∷◌, Result, ok, err, All,
  Bool-cases, ◌==◌,
}
use supernova_classic_farm.Base.Map.{lookup}
use supernova_classic_farm.Connection.{
  PlayerConnection, Connections, Registry, ConnectionError, connection_key, blank, with_endpoint,
  connections_of, found_connections, delete_key, put_connections, register, refresh_lease,
  unregister, first_endpoint,
}
use supernova_classic_farm.Connection.Eviction.{evict_connections, remove_shard}
use supernova_classic_farm.Connection.Stored.{
  AllStored, found-All, delete_key-All, put_connections-All, evict_players-All, remove_players-All,
}
use supernova_classic_farm.Connection.Agreement.{
  IsPlain, IsFiled, IsAgreed, register_at-IsAgreed, refresh_connection-IsAgreed,
}

-- The calls that change the registry.
pub data Call : Type 0 where
  register_call : (conn : PlayerConnection) → Call
  refresh_call :
      (player_id : ℕ) (gate_id connection_id : List ℕ) (expires_at : Option ℕ)
      (endpoints : List (List ℕ))
      → Call
  unregister_call : (player_id : ℕ) (gate_id connection_id : List ℕ) → Call
  evict_call : (now : ℕ) → Call
  remove_call : (shard_id : ℕ) → Call

-- A call that fails leaves the registry.
abbrev pub registry_after : Registry → Result ConnectionError Registry → Registry
registry_after registry (ok after) = after
registry_after registry (err failed) = registry

abbrev pub call_registry : (List ℕ → Bool) → Registry → Call → Registry
call_registry valid registry (Call.register_call conn) =
    registry_after registry (register valid registry conn)
call_registry valid registry
      (Call.refresh_call player_id gate_id connection_id expires_at endpoints) =
    registry_after registry
      (refresh_lease valid registry player_id gate_id connection_id expires_at endpoints)
call_registry valid registry (Call.unregister_call player_id gate_id connection_id) =
    unregister registry player_id gate_id connection_id
call_registry valid registry (Call.evict_call now) = (evict_connections registry now).0
call_registry valid registry (Call.remove_call shard_id) = (remove_shard registry shard_id).0

abbrev pub run_registry : (List ℕ → Bool) → Registry → List Call → Registry
run_registry valid registry [] = registry
run_registry valid registry (call ∷ calls) =
    run_registry valid (call_registry valid registry call) calls

-- A call that names a gate without the byte 0.
abbrev pub HasPlainGate : Call → Type 0
HasPlainGate (Call.register_call conn) = IsPlain conn.gate_id
HasPlainGate (Call.refresh_call player_id gate_id connection_id expires_at endpoints) =
    IsPlain gate_id
HasPlainGate (Call.unregister_call player_id gate_id connection_id) = Unit
HasPlainGate (Call.evict_call now) = Unit
HasPlainGate (Call.remove_call shard_id) = Unit

module _ (valid : List ℕ → Bool) where
  registry_after-IsAgreed :
      (registry : Registry) (answer : Result ConnectionError Registry)
      → IsAgreed valid registry
      → ((after : Registry) → answer ≡ ok after → IsAgreed valid after)
      → IsAgreed valid (registry_after registry answer)
  registry_after-IsAgreed registry (ok after) agreed h = h after refl
  registry_after-IsAgreed registry (err failed) agreed h = agreed

  with_endpoint-gate :
      (conn : PlayerConnection) → IsPlain conn.gate_id → IsPlain (with_endpoint conn).gate_id
  unfolding with_endpoint
  with_endpoint-gate conn h = elim (Bool-cases (blank conn.gate_endpoint)) [
    | inl e ↦ rw e h
    | inr e ↦ rw e h
  ]

  register-IsAgreed :
      (registry : Registry) (conn : PlayerConnection)
      → IsPlain conn.gate_id
      → IsAgreed valid registry
      → IsAgreed valid (registry_after registry (register valid registry conn))
  unfolding register
  register-IsAgreed registry conn plain agreed =
      registry_after-IsAgreed registry _ agreed (λ after h.
        register_at-IsAgreed valid registry (with_endpoint conn) h (with_endpoint-gate conn plain)
          agreed)

  refresh_lease-IsAgreed :
      (registry : Registry) (player_id : ℕ) (gate_id connection_id : List ℕ) (expires_at : Option ℕ)
      (endpoints : List (List ℕ))
      → IsPlain gate_id
      → IsAgreed valid registry
      → IsAgreed valid (
          registry_after registry
            (refresh_lease valid registry player_id gate_id connection_id expires_at endpoints))
  unfolding refresh_lease
  refresh_lease-IsAgreed registry player_id gate_id connection_id expires_at endpoints plain
        agreed =
      registry_after-IsAgreed registry
        (refresh_lease valid registry player_id gate_id connection_id expires_at endpoints) agreed
        (λ after h.
          refresh_connection-IsAgreed valid registry
            (record {
              player_id = player_id;
              gate_id = gate_id;
              gate_endpoint = first_endpoint endpoints;
              connection_id = connection_id;
              expires_at = expires_at;
            })
            h plain agreed)

  unregister-IsAgreed :
      (registry : Registry) (player_id : ℕ) (gate_id connection_id : List ℕ)
      → IsAgreed valid registry
      → IsAgreed valid (unregister registry player_id gate_id connection_id)
  unfolding unregister connections_of
  unregister-IsAgreed registry player_id gate_id connection_id agreed =
      elim (Bool-cases (player_id == 0 || (blank gate_id || blank connection_id))) [
        | inl e ↦ rw e agreed
        | inr e ↦ rw e (record {
          endpoint = agreed.endpoint;
          stored =
              removed (lookup player_id registry)
                (found-All (IsFiled valid agreed.endpoint) registry player_id agreed.stored);
        })
      ]
    where
      removed :
          (found : Option Connections)
          → All (IsFiled valid agreed.endpoint player_id) (found_connections found)
          → AllStored (IsFiled valid agreed.endpoint) (elim found [
            | none ↦ registry
            | some by_key ↦
                put_connections registry player_id
                  (delete_key (connection_key gate_id connection_id) by_key)
          ])
      removed none h = agreed.stored
      removed (some by_key) h =
          put_connections-All (IsFiled valid agreed.endpoint) registry player_id _ agreed.stored
            (delete_key-All (IsFiled valid agreed.endpoint) player_id _ by_key h)

  call_registry-IsAgreed :
      (registry : Registry) (call : Call)
      → HasPlainGate call
      → IsAgreed valid registry
      → IsAgreed valid (call_registry valid registry call)
  unfolding evict_connections remove_shard
  call_registry-IsAgreed registry (Call.register_call conn) plain agreed =
      register-IsAgreed registry conn plain agreed
  call_registry-IsAgreed registry
        (Call.refresh_call player_id gate_id connection_id expires_at endpoints) plain agreed =
      refresh_lease-IsAgreed registry player_id gate_id connection_id expires_at endpoints plain
        agreed
  call_registry-IsAgreed registry (Call.unregister_call player_id gate_id connection_id) plain
        agreed =
      unregister-IsAgreed registry player_id gate_id connection_id agreed
  call_registry-IsAgreed registry (Call.evict_call now) plain agreed = record {
    endpoint = agreed.endpoint;
    stored = evict_players-All (IsFiled valid agreed.endpoint) now registry agreed.stored;
  }
  call_registry-IsAgreed registry (Call.remove_call shard_id) plain agreed = record {
    endpoint = agreed.endpoint;
    stored = remove_players-All (IsFiled valid agreed.endpoint) shard_id registry agreed.stored;
  }

  -- Any calls of Register, Refresh, Unregister, EvictExpired and RemoveShard, failed ones
  -- included, that name gates without the byte 0, keep this of a registry, as of the empty one:
  -- each gate has one address, that all its connections carry, whoever their players are; every
  -- connection is valid and is stored for its own player under its own key.
  pub run_registry-IsAgreed :
      (registry : Registry) (calls : List Call)
      → All HasPlainGate calls
      → IsAgreed valid registry
      → IsAgreed valid (run_registry valid registry calls)
  run_registry-IsAgreed registry [] plain agreed = agreed
  run_registry-IsAgreed registry (call ∷ calls) plain agreed =
      run_registry-IsAgreed (call_registry valid registry call) calls plain.1
        (call_registry-IsAgreed registry call plain.0 agreed)
