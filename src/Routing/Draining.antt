-- ===== src/Routing/Draining.antt =====
-- The drain of a shard (`BeginDrain`, `Replace` and `Resume` of
-- server/internal/routing/authorization.go): from its begin on no command of the shard is let
-- through until the drain is resumed or the Zone is given the shard with a newer owner epoch.
use supernova_classic_farm.Base.{
  opened, ℕ, ◌≤◌, ◌≡◌, refl, ap, inl, inr, true, false, not, ◌||◌, Option, none, some, List, Result,
  ok, err, arith, ltb, leb, ◌==◌, if◌then◌else◌, length, Bool-cases, ok_unique,
}
use supernova_classic_farm.Base.Bytes.{bytes_equal}
use supernova_classic_farm.Routing.{
  shard_count, hash_algorithm_version, assignment_algorithm_version, set, RouteEntry, Snapshot,
  AuthorizationSnapshot, AuthorizationTable, RoutingError, Reason, entry_at, is_active, is_ordered,
  same_routes, drain_ends, adopt, replace_loaded, replace, validate, begin_drain, resume,
  new_not_owner,
}
use supernova_classic_farm.Routing.Fencing.{validate-Authorized}

-- The shard is drained at an owner epoch.
pub record IsDrained (current : AuthorizationTable) (shard epoch : ℕ) : Type 0 where
  pub marked : current.draining shard ≡ true
  pub at_epoch : current.draining_epoch shard ≡ epoch

-- The calls that may follow while the drain goes on: snapshots without a newer owner epoch of the
-- shard, drains and resumptions of other shards.
pub data Continues (shard epoch : ℕ) : AuthorizationTable → AuthorizationTable → Type 0 where
  done : (current : AuthorizationTable) → Continues shard epoch current current
  replaced :
      (current next last : AuthorizationTable) (snapshot : Snapshot)
      → replace current snapshot ≡ ok next
      → (entry_at snapshot.entries shard).owner_epoch ≤ epoch
      → Continues shard epoch next last
      → Continues shard epoch current last
  drained :
      (current next last : AuthorizationTable) (other other_epoch now : ℕ) (entry : RouteEntry)
      → begin_drain current other other_epoch now ≡ ok (next, entry)
      → (shard == other) ≡ false
      → Continues shard epoch next last
      → Continues shard epoch current last
  resumed :
      (current last : AuthorizationTable) (other : ℕ)
      → (shard == other) ≡ false
      → Continues shard epoch (resume current other) last
      → Continues shard epoch current last

adopt-IsDrained :
    (current : AuthorizationTable) (snapshot : Snapshot) (shard epoch : ℕ)
    → (entry_at snapshot.entries shard).owner_epoch ≤ epoch
    → IsDrained current shard epoch
    → IsDrained (adopt current snapshot) shard epoch
unfolding adopt drain_ends
adopt-IsDrained current snapshot shard epoch le d =
    let m = d.marked in
    let e = d.at_epoch in record { marked = ground arith; at_epoch = ground arith }

replace_loaded-IsDrained :
    (current : AuthorizationTable) (table : Option AuthorizationSnapshot) (snapshot : Snapshot)
    (shard epoch : ℕ) {next : AuthorizationTable}
    → (entry_at snapshot.entries shard).owner_epoch ≤ epoch
    → replace_loaded current table snapshot ≡ ok next
    → IsDrained current shard epoch
    → IsDrained next shard epoch
unfolding replace_loaded
replace_loaded-IsDrained current none snapshot shard epoch le h d =
    rw (← ok_unique (ok (adopt current snapshot)) refl h)
      (adopt-IsDrained current snapshot shard epoch le d)
replace_loaded-IsDrained current (some loaded) snapshot shard epoch le h d =
    let (_, h1) = opened (ltb snapshot.map_version loaded.map_version) _ _ h in
    elim (Bool-cases (loaded.map_version == snapshot.map_version)) [
      | inr e ↦
          rw (← ok_unique (ok (adopt current snapshot)) refl (rw e at h1))
            (adopt-IsDrained current snapshot shard epoch le d)
      | inl e ↦
          (let (_, h2) =
              opened (not (same_routes loaded.entries snapshot.entries)) _ _ (rw e at h1) in
            rw (← ok_unique (ok _) refl h2) (record { marked = d.marked; at_epoch = d.at_epoch }))
    ]

replace-IsDrained :
    (current : AuthorizationTable) (snapshot : Snapshot) (shard epoch : ℕ)
    {next : AuthorizationTable}
    → (entry_at snapshot.entries shard).owner_epoch ≤ epoch
    → replace current snapshot ≡ ok next
    → IsDrained current shard epoch
    → IsDrained next shard epoch
unfolding replace
replace-IsDrained current snapshot shard epoch le h d =
    let (_, h1) =
      opened
        (not (snapshot.shard_count == shard_count)
          || (not (snapshot.hash_algorithm_version == hash_algorithm_version)
              || (not (snapshot.assignment_algorithm_version == assignment_algorithm_version)
                  || (snapshot.map_version == 0 || not (length snapshot.entries == shard_count)))))
        _ _ h in
    let (_, h2) = opened (not (is_ordered 0 snapshot.entries)) _ _ h1 in
    replace_loaded-IsDrained current current.table snapshot shard epoch le h2 d

-- What a drain that began has written.
drained_table : AuthorizationTable → ℕ → ℕ → AuthorizationTable
drained_table current shard epoch = record current {
  draining = set current.draining shard true;
  draining_epoch = set current.draining_epoch shard epoch;
}

marked_entry :
    (current : AuthorizationTable) (table : Option AuthorizationSnapshot) (shard epoch now : ℕ)
    {next : AuthorizationTable} {entry : RouteEntry}
    → (elim table as (λ _. Result RoutingError (AuthorizationTable × RouteEntry)) [
      | none ↦ err RoutingError.not_loaded
      | some loaded ↦
          (let entry = entry_at loaded.entries shard in
            if not (is_active entry.state)
              || (not (bytes_equal entry.owner_zone_id current.zone_id)
                  || (not (entry.owner_epoch == epoch) || not (ltb now entry.lease_expires_at)))
            then err (new_not_owner entry current.zone_id epoch Reason.cannot_drain)
            else ok (drained_table current shard epoch, entry))
    ])
      ≡ ok (next, entry)
    → drained_table current shard epoch ≡ next
marked_entry current none shard epoch now h = cc
marked_entry current (some loaded) shard epoch now h =
    let entry = entry_at loaded.entries shard in
    let (_, h1) =
      opened
        (not (is_active entry.state)
          || (not (bytes_equal entry.owner_zone_id current.zone_id)
              || (not (entry.owner_epoch == epoch) || not (ltb now entry.lease_expires_at))))
        _ _ h in
    ap (λ r. r.0) (ok_unique (ok _) refl h1)

begin_drain-table :
    (current : AuthorizationTable) (shard epoch now : ℕ) {next : AuthorizationTable}
    {entry : RouteEntry}
    → begin_drain current shard epoch now ≡ ok (next, entry)
    → drained_table current shard epoch ≡ next
unfolding begin_drain drained_table
begin_drain-table current shard epoch now h =
    let (_, h1) = opened (leb shard_count shard) _ _ h in
    marked_entry current current.table shard epoch now h1

drained_table-IsDrained :
    (current : AuthorizationTable) (shard epoch : ℕ)
    → IsDrained (drained_table current shard epoch) shard epoch
unfolding drained_table
drained_table-IsDrained current shard epoch = record {
  marked = ground arith;
  at_epoch = ground arith;
}

other_drain :
    (current : AuthorizationTable) (shard epoch other other_epoch : ℕ)
    → (shard == other) ≡ false
    → IsDrained current shard epoch
    → IsDrained (drained_table current other other_epoch) shard epoch
unfolding drained_table
other_drain current shard epoch other other_epoch e d = record {
  marked = rw e (d.marked);
  at_epoch = rw e (d.at_epoch);
}

other_resume :
    (current : AuthorizationTable) (shard epoch other : ℕ)
    → (shard == other) ≡ false
    → IsDrained current shard epoch
    → IsDrained (resume current other) shard epoch
unfolding resume
other_resume current shard epoch other e d = elim (Bool-cases (leb shard_count other)) [
  | inl out ↦ rw out d
  | inr within ↦ rw within (record { marked = rw e (d.marked); at_epoch = rw e (d.at_epoch) })
]

Continues-IsDrained :
    (shard epoch : ℕ) (first last : AuthorizationTable)
    → Continues shard epoch first last
    → IsDrained first shard epoch
    → IsDrained last shard epoch
Continues-IsDrained shard epoch first last (done current) d = d
Continues-IsDrained shard epoch first last (replaced current next end snapshot h le rest) d =
    Continues-IsDrained shard epoch next last rest
      (replace-IsDrained current snapshot shard epoch le h d)
Continues-IsDrained shard epoch first last
      (drained current next end other other_epoch now entry h e rest) d =
    Continues-IsDrained shard epoch next last rest (
      rw (← begin_drain-table current other other_epoch now h)
        (other_drain current shard epoch other other_epoch e d))
Continues-IsDrained shard epoch first last (resumed current end other e rest) d =
    Continues-IsDrained shard epoch (resume current other) last rest
      (other_resume current shard epoch other e d)

-- Once a drain of a shard has begun at an owner epoch, no command of that shard is let through,
-- whatever its player, Zone, epoch and time, after any sequence of accepted snapshots that bring
-- no newer owner epoch of the shard and of drains and resumptions of other shards.
pub drain_blocks :
    (current first last : AuthorizationTable) (shard epoch now : ℕ) (entry : RouteEntry)
    (player : ℕ) (zone : List ℕ) (requested_epoch later : ℕ)
    → begin_drain current shard epoch now ≡ ok (first, entry)
    → Continues shard epoch first last
    → ¬ (validate last player shard zone requested_epoch later ≡ ok tt)
drain_blocks current first last shard epoch now entry player zone requested_epoch later began rest
      through =
    let d = Continues-IsDrained shard epoch first last rest (
      rw (← begin_drain-table current shard epoch now began)
        (drained_table-IsDrained current shard epoch)) in
    let running =
      (validate-Authorized last player shard zone requested_epoch later through).running in
    let on = d.marked in cc
