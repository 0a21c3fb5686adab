-- ===== src/Connection/Agreement.antt =====
-- In a registry of connections (server/internal/connection/registry.go) every gate has one address,
-- and every connection is stored for its player under its key.
use mathlib.Core.Path.{subst}
use supernova_classic_farm.Base.{
  ℕ, ◌<◌, ◌≡◌, refl, sym, ap, ◌∙◌, inl, inr, Bool, true, false, not, ◌&&◌, ◌||◌, List, [], ◌∷◌,
  ◌++◌, ok, arith, if◌then◌else◌, opened, ok_unique, Bool-cases, All,
}
use supernova_classic_farm.Base.Bytes.{bytes_equal, bytes_equal_refl, bytes_equal-eq}
use supernova_classic_farm.Connection.{
  PlayerConnection, Connections, Registry, connection_key, key_of, find_key, connections_of,
  is_invalid, conflicts, any_conflict, registry_conflict, put_connection, elsewhere, register_at,
  not_at, refresh_connection,
}
use supernova_classic_farm.Connection.Stored.{AllStored, found-All, put_connection-All}

-- An ID without the byte 0.
abbrev pub IsPlain : List ℕ → Type 0
IsPlain id = All (λ c. 0 < c) id

plain_prefix :
    (left right : List ℕ) (a b : List ℕ)
    → IsPlain left
    → IsPlain right
    → connection_key left a ≡ connection_key right b
    → left ≡ right
unfolding connection_key
plain_prefix [] [] a b p q h = refl
plain_prefix [] (d ∷ right) a b p q h =
    absurd (let e : 0 ≡ d = cc in let z = q.0 in omega (arith, e, z))
plain_prefix (c ∷ left) [] a b p q h =
    absurd (let e : c ≡ 0 = cc in let z = p.0 in omega (arith, e, z))
plain_prefix (c ∷ left) (d ∷ right) a b p q h =
    let e : c ≡ d = cc in
    let rest : left ++ 0 ∷ a ≡ right ++ 0 ∷ b = cc in
    let same = plain_prefix left right a b p.1 q.1 rest in rw (e, same) refl

abbrev pub Endpoints : Type 0
Endpoints = List ℕ → List ℕ

neither : (a b : Bool) → (a || b) ≡ false → (a ≡ false) × (b ≡ false)
neither true b h = cc
neither false b h = (refl, h)

module _ (valid_endpoint : List ℕ → Bool) where
  pub record IsFiled (endpoint : Endpoints) (player_id : ℕ) (entry : List ℕ × PlayerConnection)
      : Type 0 where
    pub owned : entry.1.player_id ≡ player_id
    pub filed : entry.0 ≡ key_of entry.1
    pub located : endpoint entry.1.gate_id ≡ entry.1.gate_endpoint
    pub plain : IsPlain entry.1.gate_id
    pub is_valid : is_invalid valid_endpoint entry.1 ≡ false

  -- Some map from gates to addresses fits every stored connection.
  pub record IsAgreed (registry : Registry) : Type 0 where
    pub endpoint : Endpoints
    pub stored : AllStored (IsFiled endpoint) registry

  relocated : Endpoints → PlayerConnection → Endpoints
  relocated endpoint conn gate_id =
      if bytes_equal conn.gate_id gate_id then conn.gate_endpoint else endpoint gate_id

  relocated_entry :
      (endpoint : Endpoints) (conn : PlayerConnection) (player_id : ℕ)
      (entry : List ℕ × PlayerConnection)
      → conflicts entry.1 conn ≡ false
      → IsFiled endpoint player_id entry
      → IsFiled (relocated endpoint conn) player_id entry
  unfolding relocated conflicts
  relocated_entry endpoint conn player_id entry quiet f = record {
    owned = f.owned;
    filed = f.filed;
    located = elim (Bool-cases (bytes_equal conn.gate_id entry.1.gate_id)) [
      | inr e ↦ rw e f.located
      | inl e ↦ rw e (same_place (bytes_equal-eq _ _ e))
    ];
    plain = f.plain;
    is_valid = f.is_valid;
  }
    where
      not_elsewhere : (b : Bool) → (true && not b) ≡ false → b ≡ true
      not_elsewhere true h = refl
      not_elsewhere false h = cc

      same_place : conn.gate_id ≡ entry.1.gate_id → conn.gate_endpoint ≡ entry.1.gate_endpoint
      same_place e = sym (
          bytes_equal-eq _ _ (
            not_elsewhere (bytes_equal entry.1.gate_endpoint conn.gate_endpoint) (
              ap (λ b. b && not (bytes_equal entry.1.gate_endpoint conn.gate_endpoint))
                (sym (ap (bytes_equal entry.1.gate_id) e ∙ bytes_equal_refl entry.1.gate_id))
              ∙ quiet)))

  relocated_keys :
      (endpoint : Endpoints) (conn : PlayerConnection) (player_id : ℕ) (by_key : Connections)
      → any_conflict by_key conn ≡ false
      → All (IsFiled endpoint player_id) by_key
      → All (IsFiled (relocated endpoint conn) player_id) by_key
  relocated_keys endpoint conn player_id [] quiet h = tt
  relocated_keys endpoint conn player_id (entry ∷ entries) quiet h =
      let (here, there) = neither (conflicts entry.1 conn) (any_conflict entries conn) quiet in
      (
        relocated_entry endpoint conn player_id entry here h.0,
        relocated_keys endpoint conn player_id entries there h.1,
      )

  relocated_registry :
      (endpoint : Endpoints) (conn : PlayerConnection) (registry : Registry)
      → registry_conflict registry conn ≡ false
      → AllStored (IsFiled endpoint) registry
      → AllStored (IsFiled (relocated endpoint conn)) registry
  unfolding registry_conflict
  relocated_registry endpoint conn [] quiet h = tt
  relocated_registry endpoint conn (entry ∷ entries) quiet h =
      let (here, there) =
        neither (any_conflict entry.1 conn) (registry_conflict entries conn) quiet in
      (
        relocated_keys endpoint conn entry.0 entry.1 here h.0,
        relocated_registry endpoint conn entries there h.1,
      )

  pub register_at-IsAgreed :
      (registry : Registry) (conn : PlayerConnection) {after : Registry}
      → register_at valid_endpoint registry conn ≡ ok after
      → IsPlain conn.gate_id
      → IsAgreed registry
      → IsAgreed after
  unfolding register_at relocated
  register_at-IsAgreed registry conn h plain agreed =
      let (valid, h1) = opened (is_invalid valid_endpoint conn) _ _ h in
      let (quiet, h2) = opened (registry_conflict registry conn) _ _ h1 in
      let (_, h3) =
        opened
          (elsewhere (find_key (key_of conn) (connections_of registry conn.player_id))
            conn.gate_endpoint)
          _ _ h2 in
      subst IsAgreed (ok_unique (ok (put_connection registry conn)) refl h3) (record {
        endpoint = relocated agreed.endpoint conn;
        stored =
            put_connection-All (IsFiled (relocated agreed.endpoint conn)) registry conn
              (relocated_registry agreed.endpoint conn registry quiet agreed.stored)
              (record {
                owned = refl;
                filed = refl;
                located = rw (bytes_equal_refl conn.gate_id) refl;
                plain = plain;
                is_valid = valid;
              });
      })

  -- What is found under a key is filed under it.
  find_key-IsFiled :
      (endpoint : Endpoints) (player_id : ℕ) (key : List ℕ) (by_key : Connections)
      (gate_endpoint : List ℕ)
      → All (IsFiled endpoint player_id) by_key
      → not_at (find_key key by_key) gate_endpoint ≡ false
      → (existing : PlayerConnection) × IsFiled endpoint player_id (key, existing)
        × (existing.gate_endpoint ≡ gate_endpoint)
  unfolding find_key
  find_key-IsFiled endpoint player_id key [] gate_endpoint h held = cc
  find_key-IsFiled endpoint player_id key (entry ∷ entries) gate_endpoint h held =
      elim (Bool-cases (bytes_equal entry.0 key)) [
        | inr e ↦
            find_key-IsFiled endpoint player_id key entries gate_endpoint h.1
              (rw (find_key, e) at held)
        | inl e ↦ (
          entry.1,
          subst (λ k. IsFiled endpoint player_id (k, entry.1)) (bytes_equal-eq _ _ e) h.0,
          bytes_equal-eq _ _
              (kept (bytes_equal entry.1.gate_endpoint gate_endpoint) (rw (find_key, e) at held)),
        )
      ]
    where
      kept : (b : Bool) → not b ≡ false → b ≡ true
      kept true h = refl
      kept false h = cc

  pub refresh_connection-IsAgreed :
      (registry : Registry) (conn : PlayerConnection) {after : Registry}
      → refresh_connection valid_endpoint registry conn ≡ ok after
      → IsPlain conn.gate_id
      → IsAgreed registry
      → IsAgreed after
  unfolding refresh_connection
  refresh_connection-IsAgreed registry conn h plain agreed =
      let (valid, h1) = opened (is_invalid valid_endpoint conn) _ _ h in
      let (held, h2) =
        opened
          (not_at (find_key (key_of conn) (connections_of registry conn.player_id))
            conn.gate_endpoint)
          _ _ h1 in
      let (existing, f, same) =
        find_key-IsFiled agreed.endpoint conn.player_id (key_of conn)
          (connections_of registry conn.player_id) conn.gate_endpoint
          (found-All (IsFiled agreed.endpoint) registry conn.player_id agreed.stored) held in
      let gate =
        plain_prefix conn.gate_id existing.gate_id conn.connection_id existing.connection_id plain
          f.plain f.filed in
      subst IsAgreed (ok_unique (ok (put_connection registry conn)) refl h2) (record {
        endpoint = agreed.endpoint;
        stored = put_connection-All (IsFiled agreed.endpoint) registry conn agreed.stored (record {
          owned = refl;
          filed = refl;
          located = ap agreed.endpoint gate ∙ f.located ∙ same;
          plain = plain;
          is_valid = valid;
        });
      })
