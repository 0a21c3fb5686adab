-- ===== src/Visit.antt =====
-- The leases of visitors on farms: `Registry` of server/internal/visit/registry.go. A time is Unix
-- nanoseconds, a string its bytes. Both maps of an owner hold pointers to the same records, so the
-- second one names the visitor whose record it points to. The test of a gate's address
-- (connection.ValidGateEndpoint) and the random visit ID are arguments.
pub mod Eviction
pub mod Leases
pub mod Calls
pub mod Expiry
pub mod Refinement
pub mod Lifetime
mod Tests
use supernova_classic_farm.Base.{
  ℕ, ◌+◌, Bool, true, false, not, ◌&&◌, ◌||◌, Option, none, some, List, [], ◌∷◌, ◌++◌, map, Result,
  ok, err, ltb, leb, ◌==◌, if◌then◌else◌, length,
}
use supernova_classic_farm.Base.Bytes.{bytes_equal}
use supernova_classic_farm.Base.Map.{Map, lookup, insert, erase}

-- VisitTTL
abbrev pub visit_ttl : ℕ
visit_ttl = 90000000000

pub record VisitRecord : Type 0 where
  pub owner_player_id : ℕ
  pub visitor_player_id : ℕ
  pub visit_id : List ℕ
  pub gate_id : List ℕ
  pub gate_endpoint : List ℕ
  pub last_heartbeat_at : ℕ
  pub expires_at : ℕ
  pub request_id : List ℕ

pub record OwnerVisits : Type 0 where
  pub by_visitor : Map VisitRecord
  pub by_visit_id : List (List ℕ × ℕ)

-- The field `owners`.
abbrev pub Registry : Type 0
Registry = Map OwnerVisits

pub data VisitError : Type 0 where
  visit_not_found visit_expired invalid_gate_target no_random_id : VisitError

-- "http://legacy-gate:8081"
abbrev pub legacy_gate : List ℕ
legacy_gate =
    b'h' ∷ b't' ∷ b't' ∷ b'p' ∷ b':' ∷ b'/' ∷ b'/' ∷ b'l' ∷ b'e' ∷ b'g' ∷ b'a' ∷ b'c' ∷ b'y' ∷ b'-'
    ∷ b'g' ∷ b'a' ∷ b't' ∷ b'e' ∷ b':' ∷ b'8' ∷ b'0' ∷ b'8' ∷ b'1' ∷ []

-- The first of the optional addresses, unless it is empty.
unfoldable pub gate_endpoint_of : List (List ℕ) → List ℕ
gate_endpoint_of [] = legacy_gate
gate_endpoint_of ([] ∷ others) = legacy_gate
gate_endpoint_of ((c ∷ endpoint) ∷ others) = c ∷ endpoint

-- What a caller says of its gate.
pub record Gate : Type 0 where
  pub gate_id : List ℕ
  pub gate_endpoints : List (List ℕ)

-- delete(byVisitID, string(id))
unfoldable pub forget_id : List ℕ → List (List ℕ × ℕ) → List (List ℕ × ℕ)
forget_id id [] = []
forget_id id (entry ∷ entries) =
    (let rest = forget_id id entries in if bytes_equal entry.0 id then rest else entry ∷ rest)

abbrev pub no_visits : OwnerVisits
no_visits = record { by_visitor = []; by_visit_id = [] }

abbrev pub visits_found : Option OwnerVisits → OwnerVisits
visits_found none = no_visits
visits_found (some visits) = visits

unfoldable pub visits_of : Registry → ℕ → OwnerVisits
visits_of registry owner = visits_found (lookup owner registry)

unfoldable pub without_visitor : OwnerVisits → ℕ → VisitRecord → OwnerVisits
unfolding forget_id
without_visitor visits visitor existing = record {
  by_visitor = erase visitor visits.by_visitor;
  by_visit_id = forget_id existing.visit_id visits.by_visit_id;
}

unfoldable pub renewed : VisitRecord → ℕ → VisitRecord
renewed existing now = record existing { last_heartbeat_at = now; expires_at = now + visit_ttl }

unfoldable pub new_visit : ℕ → ℕ → List ℕ → List ℕ → List ℕ → List ℕ → ℕ → VisitRecord
new_visit owner visitor id gate_id endpoint request_id now = record {
  owner_player_id = owner;
  visitor_player_id = visitor;
  visit_id = id;
  gate_id = gate_id;
  gate_endpoint = endpoint;
  last_heartbeat_at = now;
  expires_at = now + visit_ttl;
  request_id = request_id;
}

unfoldable pub same_gate : VisitRecord → List ℕ → List ℕ → Bool
same_gate existing gate_id endpoint =
    bytes_equal existing.gate_id gate_id && bytes_equal existing.gate_endpoint endpoint

-- A retry of the request that the lease was granted to.
unfoldable pub is_retry : VisitRecord → List ℕ → Bool
is_retry existing request_id =
    not (length request_id == 0) && bytes_equal existing.request_id request_id

-- What `Enter` returns: the visit ID, the expiry and whether the lease is new.
abbrev pub Entered : Type 0
Entered = Result VisitError (List ℕ × ℕ × Bool)

-- The end of `Enter`, once there is no lease of the visitor.
unfoldable pub grant :
    Registry
    → OwnerVisits
    → ℕ
    → ℕ
    → List ℕ
    → List ℕ
    → List ℕ
    → ℕ
    → Result VisitError (List ℕ)
    → Registry × Entered
unfolding new_visit
grant registry visits owner visitor gate_id endpoint request_id now (err failed) =
    (insert owner visits registry, err failed)
grant registry visits owner visitor gate_id endpoint request_id now (ok id) = (
  insert owner
      (record {
        by_visitor =
            insert visitor (new_visit owner visitor id gate_id endpoint request_id now)
              visits.by_visitor;
        by_visit_id = (id, visitor) ∷ forget_id id visits.by_visit_id;
      })
      registry,
  ok (id, now + visit_ttl, true),
)

-- `Enter` for a visitor with or without a lease.
unfoldable pub enter_with :
    Registry
    → Option VisitRecord
    → ℕ
    → ℕ
    → List ℕ
    → List ℕ
    → List ℕ
    → ℕ
    → Result VisitError (List ℕ)
    → Registry × Entered
unfolding grant is_retry same_gate renewed without_visitor
enter_with registry none owner visitor gate_id endpoint request_id now new_id =
    grant registry (visits_of registry owner) owner visitor gate_id endpoint request_id now new_id
enter_with registry (some existing) owner visitor gate_id endpoint request_id now new_id =
    if is_retry existing request_id
    then (if not (same_gate existing gate_id endpoint)
        then (registry, err VisitError.visit_not_found)
        else (
          insert owner
              (record (visits_of registry owner) {
                by_visitor =
                    insert visitor (renewed existing now) (visits_of registry owner).by_visitor;
              })
              registry,
          ok (existing.visit_id, now + visit_ttl, false),
        ))
    else grant registry (without_visitor (visits_of registry owner) visitor existing) owner visitor
        gate_id endpoint request_id now new_id

unfoldable pub bad_gate : (List ℕ → Bool) → Gate → Bool
unfolding gate_endpoint_of
bad_gate valid_endpoint gate =
    length gate.gate_id == 0 || not (valid_endpoint (gate_endpoint_of gate.gate_endpoints))

unfoldable pub enter :
    (List ℕ → Bool)
    → Registry
    → ℕ
    → ℕ
    → Gate
    → List ℕ
    → ℕ
    → Result VisitError (List ℕ)
    → Registry × Entered
unfolding bad_gate enter_with visits_of
enter valid_endpoint registry owner visitor gate request_id now new_id =
    if bad_gate valid_endpoint gate
    then (registry, err VisitError.invalid_gate_target)
    else enter_with registry (lookup visitor (visits_of registry owner).by_visitor) owner visitor
        gate.gate_id (gate_endpoint_of gate.gate_endpoints) request_id now new_id

-- A lease with the visit ID that is asked for.
unfoldable pub with_id : Option VisitRecord → List ℕ → Option VisitRecord
with_id none visit_id = none
with_id (some existing) visit_id =
    if bytes_equal existing.visit_id visit_id then some existing else none

-- `lookupLocked`, as the record.
unfoldable pub lookup_locked : Registry → ℕ → ℕ → List ℕ → Option VisitRecord
unfolding with_id visits_of
lookup_locked registry owner visitor visit_id =
    with_id (lookup visitor (visits_of registry owner).by_visitor) visit_id

-- An owner without visitors is deleted.
unfoldable pub put_visits : Registry → ℕ → OwnerVisits → Registry
put_visits registry owner visits =
    if length visits.by_visitor == 0 then erase owner registry else insert owner visits registry

-- `removeLocked`
unfoldable pub remove_locked : Registry → ℕ → ℕ → VisitRecord → Registry
unfolding put_visits without_visitor visits_of
remove_locked registry owner visitor existing =
    put_visits registry owner (without_visitor (visits_of registry owner) visitor existing)

-- `Refresh` of a lease that was found.
unfoldable pub refresh_found :
    Registry → ℕ → ℕ → List ℕ → List ℕ → ℕ → Option VisitRecord → Registry × Result VisitError ℕ
unfolding remove_locked same_gate renewed
refresh_found registry owner visitor gate_id endpoint now none =
    (registry, err VisitError.visit_not_found)
refresh_found registry owner visitor gate_id endpoint now (some existing) =
    if leb existing.expires_at now
    then (remove_locked registry owner visitor existing, err VisitError.visit_expired)
    else if not (same_gate existing gate_id endpoint)
    then (registry, err VisitError.visit_not_found)
    else (
      insert owner
          (record (visits_of registry owner) {
            by_visitor =
                insert visitor (renewed existing now) (visits_of registry owner).by_visitor;
          })
          registry,
      ok (now + visit_ttl),
    )

unfoldable pub refresh :
    (List ℕ → Bool) → Registry → ℕ → ℕ → List ℕ → Gate → ℕ → Registry × Result VisitError ℕ
unfolding bad_gate refresh_found lookup_locked
refresh valid_endpoint registry owner visitor visit_id gate now =
    if bad_gate valid_endpoint gate
    then (registry, err VisitError.invalid_gate_target)
    else refresh_found registry owner visitor gate.gate_id (gate_endpoint_of gate.gate_endpoints)
        now (lookup_locked registry owner visitor visit_id)

-- The rest of `Validate`.
unfoldable pub check_lease : Option VisitRecord → ℕ → Result VisitError (Unit {0})
check_lease none now = err VisitError.visit_not_found
check_lease (some existing) now =
    if leb existing.expires_at now then err VisitError.visit_expired else ok tt

unfoldable pub validate_visit : Registry → ℕ → ℕ → List ℕ → ℕ → Result VisitError (Unit {0})
unfolding check_lease lookup_locked
validate_visit registry owner visitor visit_id now =
    check_lease (lookup_locked registry owner visitor visit_id) now

unfoldable pub exit : Registry → ℕ → ℕ → List ℕ → Registry × Result VisitError VisitRecord
unfolding lookup_locked remove_locked
exit registry owner visitor visit_id = elim (lookup_locked registry owner visitor visit_id) [
  | none ↦ (registry, err VisitError.visit_not_found)
  | some existing ↦ (remove_locked registry owner visitor existing, ok existing)
]
