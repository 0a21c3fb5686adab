-- ===== src/Connection/Tests.antt =====
-- Examples for connections: a second player of the same gate, another address, and an eviction.
use supernova_classic_farm.Base.Text.{trim_space}
use supernova_classic_farm.Base.Map.{insert, lookup}
use supernova_classic_farm.Connection.Agreement.{IsAgreed}
use supernova_classic_farm.Connection.Eviction.{evict_connections}
use supernova_classic_farm.Base.{ℕ, ◌<◌, ◌≡◌, refl, Bool, true, some, List, [], ◌∷◌, arith}
use supernova_classic_farm.Connection.{PlayerConnection, register, refresh_lease, connection_key}
use supernova_classic_farm.Connection.History.{Call, run_registry, run_registry-IsAgreed}

abbrev valid : List ℕ → Bool
valid endpoint = true

abbrev conn : ℕ → List ℕ → ℕ → PlayerConnection
conn player_id endpoint expires_at = record {
  player_id = player_id;
  gate_id = b'g' ∷ [];
  gate_endpoint = endpoint;
  connection_id = b'c' ∷ [];
  expires_at = some expires_at;
}

abbrev calls : List Call
calls =
    Call.register_call (conn 1 (b'a' ∷ []) 50)
    ∷ Call.register_call (conn 2 (b'a' ∷ []) 90)
    ∷ Call.register_call (conn 3 (b'b' ∷ []) 90)
    ∷ Call.refresh_call 2 (b'g' ∷ []) (b'c' ∷ []) (some 99) ((b'a' ∷ []) ∷ [])
    ∷ Call.evict_call 60
    ∷ []

positive : 0 < b'g'
positive = omega arith

run_registry-IsAgreed_example : IsAgreed valid (run_registry valid [] calls)
run_registry-IsAgreed_example =
    run_registry-IsAgreed valid [] calls
      ((positive, tt), ((positive, tt), ((positive, tt), ((positive, tt), (tt, tt)))))
      (record { endpoint = λ gate_id. []; stored = tt })

only_second :
    run_registry valid [] calls ≡ (2, (b'g' ∷ 0 ∷ b'c' ∷ [], conn 2 (b'a' ∷ []) 99) ∷ []) ∷ []
unfolding register evict_connections refresh_lease trim_space lookup insert connection_key
only_second = refl
