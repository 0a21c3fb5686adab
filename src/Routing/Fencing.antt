-- ===== src/Routing/Fencing.antt =====
-- What `Validate` of server/internal/routing/authorization.go lets through, and why two Zones with
-- the same committed map never both let commands of one shard through.
use supernova_classic_farm.Base.{
  opened, ℕ, ◌<◌, ◌≡◌, refl, sym, ap, ◌∙◌, Bool, true, false, not, ◌||◌, Option, none, some, List,
  Result, ok, err, arith, ltb, leb, ◌==◌,
}
use supernova_classic_farm.Base.Bytes.{bytes_equal, bytes_equal-eq}
use supernova_classic_farm.Routing.{
  shard_count, RouteState, RouteEntry, AuthorizationSnapshot, AuthorizationTable, RoutingError,
  entry_at, shard_for_player, is_active, validate_entry, validate,
}

-- What a command that is let through has shown.
pub record Authorized (current : AuthorizationTable) (player shard : ℕ) (zone : List ℕ)
    (epoch now : ℕ) : Type 0 where
  pub loaded : AuthorizationSnapshot
  pub in_use : current.table ≡ some loaded
  pub in_range : shard < shard_count
  pub placed : shard_for_player player ≡ shard
  pub running : current.draining shard ≡ false
  pub routed : (entry_at loaded.entries shard).state ≡ RouteState.active
  pub leased : now < (entry_at loaded.entries shard).lease_expires_at
  pub owned : (entry_at loaded.entries shard).owner_zone_id ≡ current.zone_id
  pub addressed : zone ≡ current.zone_id
  pub current_epoch : epoch ≡ (entry_at loaded.entries shard).owner_epoch

held : (b : Bool) → not b ≡ false → b ≡ true
held true h = refl
held false h = cc

active_state : (s : RouteState) → is_active s ≡ true → s ≡ RouteState.active
active_state RouteState.active h = refl
active_state RouteState.unassigned h = cc
active_state RouteState.preparing h = cc

tested_lt : (m n : ℕ) → ltb m n ≡ true → m < n
tested_lt m n h = ground arith

tested_eq : (m n : ℕ) → (m == n) ≡ true → m ≡ n
tested_eq m n h = ground arith

in_table :
    (shard home : ℕ)
    → (leb shard_count shard || not (home == shard)) ≡ false
    → (shard < shard_count) × (home ≡ shard)
in_table shard home h = (ground arith, ground arith)

validate_entry-tests :
    (zone_id : List ℕ) (entry : RouteEntry) (drained : Bool) (zone : List ℕ) (epoch now : ℕ)
    → validate_entry zone_id entry drained zone epoch now ≡ ok tt
    → (drained ≡ false)
      × (entry.state ≡ RouteState.active)
      × (now < entry.lease_expires_at)
      × (entry.owner_zone_id ≡ zone_id)
      × (zone ≡ zone_id)
      × (epoch ≡ entry.owner_epoch)
unfolding validate_entry
validate_entry-tests zone_id entry drained zone epoch now h =
    let (a, h1) = opened drained _ _ h in
    let (b, h2) = opened (not (is_active entry.state)) _ _ h1 in
    let (c, h3) = opened (not (ltb now entry.lease_expires_at)) _ _ h2 in
    let (d, h4) = opened (not (bytes_equal entry.owner_zone_id zone_id)) _ _ h3 in
    let (e, h5) = opened (not (bytes_equal zone zone_id)) _ _ h4 in
    let (f, _) = opened (not (epoch == entry.owner_epoch)) _ _ h5 in
    (
      a,
      active_state _ (held _ b),
      tested_lt _ _ (held _ c),
      bytes_equal-eq _ _ (held _ d),
      bytes_equal-eq _ _ (held _ e),
      tested_eq _ _ (held _ f),
    )

loaded_table :
    (current : AuthorizationTable) (table : Option AuthorizationSnapshot) (shard : ℕ)
    (zone : List ℕ) (epoch now : ℕ)
    → current.table ≡ table
    → (elim table as (λ _. Result RoutingError (Unit {0})) [
      | none ↦ err RoutingError.not_loaded
      | some loaded ↦
          validate_entry current.zone_id
            (entry_at loaded.entries shard)
            (current.draining shard)
            zone
            epoch
            now
    ])
      ≡ ok tt
    → (loaded : AuthorizationSnapshot) × (current.table ≡ some loaded)
      × (validate_entry current.zone_id
            (entry_at loaded.entries shard)
            (current.draining shard)
            zone
            epoch
            now
          ≡ ok tt)
loaded_table current none shard zone epoch now e h = cc
loaded_table current (some loaded) shard zone epoch now e h = (loaded, e, h)

-- A command that is let through names the shard of its player, and the loaded snapshot has the
-- shard active, with a lease that has not expired, owned by this Zone at the epoch that the
-- command carries; the shard is not being drained and the command is addressed to this Zone.
pub validate-Authorized :
    (current : AuthorizationTable) (player shard : ℕ) (zone : List ℕ) (epoch now : ℕ)
    → validate current player shard zone epoch now ≡ ok tt
    → Authorized current player shard zone epoch now
unfolding validate
validate-Authorized current player shard zone epoch now h =
    let (a, h1) = opened (leb shard_count shard || not (shard_for_player player == shard)) _ _ h in
    let (loaded, in_use, h2) = loaded_table current current.table shard zone epoch now refl h1 in
    let (running, routed, leased, owned, addressed, same) =
      validate_entry-tests current.zone_id (entry_at loaded.entries shard) (current.draining shard)
        zone epoch now h2 in
    let (in_range, placed) = in_table shard (shard_for_player player) a in
    record {
      loaded = loaded;
      in_use = in_use;
      in_range = in_range;
      placed = placed;
      running = running;
      routed = routed;
      leased = leased;
      owned = owned;
      addressed = addressed;
      current_epoch = same;
    }

-- Two Zones that hold the same committed snapshot never both let commands of one shard through,
-- and all that are let through carry the same owner epoch.
pub validate_exclusive :
    (first second : AuthorizationTable) (player1 player2 shard : ℕ) (zone1 zone2 : List ℕ)
    (epoch1 epoch2 now1 now2 : ℕ)
    → first.table ≡ second.table
    → validate first player1 shard zone1 epoch1 now1 ≡ ok tt
    → validate second player2 shard zone2 epoch2 now2 ≡ ok tt
    → (first.zone_id ≡ second.zone_id) × (epoch1 ≡ epoch2)
validate_exclusive first second player1 player2 shard zone1 zone2 epoch1 epoch2 now1 now2 same h1
      h2 =
    let a = validate-Authorized first player1 shard zone1 epoch1 now1 h1 in
    let b = validate-Authorized second player2 shard zone2 epoch2 now2 h2 in
    let one = one_some a.loaded b.loaded (sym (a.in_use) ∙ same ∙ b.in_use) in
    (
      sym a.owned ∙ ap (λ s. (entry_at s.entries shard).owner_zone_id) one ∙ b.owned,
      a.current_epoch ∙ ap (λ s. (entry_at s.entries shard).owner_epoch) one ∙ sym b.current_epoch,
    )
  where
    one_some : (a b : AuthorizationSnapshot) → some a ≡ some b → a ≡ b
    one_some a b h = cc
