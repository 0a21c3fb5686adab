-- ===== src/Visit/Refinement.antt =====
-- The registry of visits (server/internal/visit/registry.go) refines independent leases, one for
-- each owner and visitor.
use supernova_classic_farm.Base.{
  ℕ, ◌≡◌, refl, ap, ◌∙◌, inl, inr, Bool, true, false, Option, none, some, List, [], ◌∷◌, Result,
  ◌==◌, if◌then◌else◌, Bool-cases, Option-cases,
}
use supernova_classic_farm.Base.Bytes.{bytes_equal}
use supernova_classic_farm.Visit.{
  VisitRecord, Registry, VisitError, Gate, gate_endpoint_of, bad_gate, enter, with_id,
  lookup_locked, refresh, exit,
}
use supernova_classic_farm.Visit.Eviction.{evict_expired}
use supernova_classic_farm.Visit.Leases.{lease_of, lease_enter, updated, same_owner}
use supernova_classic_farm.Visit.Calls.{
  unchanged, enter_with-lease, remove_locked-lease, after_refresh, refresh_found-lease,
}
use supernova_classic_farm.Visit.Expiry.{evict_lease, evict_expired-lease}

-- The calls that change the registry.
pub data Call : Type 0 where
  enter_call :
      (owner visitor : ℕ) (gate : Gate) (request_id : List ℕ) (now : ℕ)
      (new_id : Result VisitError (List ℕ))
      → Call
  refresh_call : (owner visitor : ℕ) (visit_id : List ℕ) (gate : Gate) (now : ℕ) → Call
  exit_call : (owner visitor : ℕ) (visit_id : List ℕ) → Call
  evict_call : (now : ℕ) → Call

abbrev pub call_registry : (List ℕ → Bool) → Registry → Call → Registry
call_registry valid registry (Call.enter_call owner visitor gate request_id now new_id) =
    (enter valid registry owner visitor gate request_id now new_id).0
call_registry valid registry (Call.refresh_call owner visitor visit_id gate now) =
    (refresh valid registry owner visitor visit_id gate now).0
call_registry valid registry (Call.exit_call owner visitor visit_id) =
    (exit registry owner visitor visit_id).0
call_registry valid registry (Call.evict_call now) = (evict_expired registry now).0

-- The specification: what a call does to the lease of the owner `o` and the visitor `v`.
abbrev for_lease : ℕ → ℕ → ℕ → ℕ → Option VisitRecord → Option VisitRecord → Option VisitRecord
for_lease owner visitor o v changed lease =
    if owner == o then (if visitor == v then changed else lease) else lease

abbrev end_if : Option VisitRecord → Option VisitRecord → Option VisitRecord
end_if lease none = lease
end_if lease (some existing) = none

abbrev pub call_lease : (List ℕ → Bool) → ℕ → ℕ → Option VisitRecord → Call → Option VisitRecord
call_lease valid o v lease (Call.enter_call owner visitor gate request_id now new_id) =
    if bad_gate valid gate
    then lease
    else for_lease owner visitor o v
        (lease_enter lease owner visitor gate.gate_id (gate_endpoint_of gate.gate_endpoints)
          request_id now new_id)
        lease
call_lease valid o v lease (Call.refresh_call owner visitor visit_id gate now) =
    if bad_gate valid gate
    then lease
    else for_lease owner visitor o v
        (after_refresh lease (with_id lease visit_id) gate.gate_id
          (gate_endpoint_of gate.gate_endpoints) now)
        lease
call_lease valid o v lease (Call.exit_call owner visitor visit_id) =
    for_lease owner visitor o v (end_if lease (with_id lease visit_id)) lease
call_lease valid o v lease (Call.evict_call now) = evict_lease now lease

abbrev pub run_registry : (List ℕ → Bool) → Registry → List Call → Registry
run_registry valid registry [] = registry
run_registry valid registry (call ∷ calls) =
    run_registry valid (call_registry valid registry call) calls

abbrev pub run_lease : (List ℕ → Bool) → ℕ → ℕ → Option VisitRecord → List Call → Option VisitRecord
run_lease valid o v lease [] = lease
run_lease valid o v lease (call ∷ calls) =
    run_lease valid o v (call_lease valid o v lease call) calls

with_id-some :
    (found : Option VisitRecord) (visit_id : List ℕ) (existing : VisitRecord)
    → with_id found visit_id ≡ some existing
    → found ≡ some existing
unfolding with_id
with_id-some none visit_id existing h = cc
with_id-some (some other) visit_id existing h = kept (bytes_equal other.visit_id visit_id) h
  where
    kept :
        (b : Bool) → (if b then some other else none) ≡ some existing → some other ≡ some existing
    kept true h = h
    kept false h = cc

-- A change of the owner's lease, seen from the lease of `o` and `v`.
at_lease :
    (registry : Registry) (owner visitor o v : ℕ) (change : Option VisitRecord → Option VisitRecord)
    → updated registry owner visitor (change (lease_of registry owner visitor)) o v
      ≡ for_lease owner visitor o v (change (lease_of registry o v)) (lease_of registry o v)
at_lease registry owner visitor o v change = elim (Bool-cases (owner == o)) [
  | inr e ↦ rw e refl
  | inl e ↦ elim (Bool-cases (visitor == v)) [
    | inr f ↦ rw (e, f) refl
    | inl f ↦
        rw (e, f)
          (ap (λ p. change (lease_of registry p visitor)) (same_owner owner o e)
            ∙ ap (λ w. change (lease_of registry o w)) (same_owner visitor v f))
  ]
]

exit-lease :
    (registry : Registry) (owner visitor o v : ℕ) (visit_id : List ℕ)
    → lease_of (exit registry owner visitor visit_id).0 o v
      ≡ updated registry owner visitor
          (end_if
            (lease_of registry owner visitor)
            (with_id (lease_of registry owner visitor) visit_id))
          o
          v
unfolding exit lookup_locked lease_of
exit-lease registry owner visitor o v visit_id =
    elim (Option-cases (with_id (lease_of registry owner visitor) visit_id)) [
      | inl e ↦
          rw (exit, lookup_locked, e)
            (unchanged registry owner visitor o v (lease_of registry owner visitor) refl)
      | inr (existing, e) ↦
          rw (exit, lookup_locked, e) (remove_locked-lease registry owner visitor o v existing)
    ]

pub enter-lease :
    (valid : List ℕ → Bool) (registry : Registry) (owner visitor o v : ℕ) (gate : Gate)
    (request_id : List ℕ) (now : ℕ) (new_id : Result VisitError (List ℕ))
    → lease_of (enter valid registry owner visitor gate request_id now new_id).0 o v ≡ (
        if bad_gate valid gate
        then lease_of registry o v
        else updated registry owner visitor
            (lease_enter
              (lease_of registry owner visitor)
              owner
              visitor
              gate.gate_id
              (gate_endpoint_of gate.gate_endpoints)
              request_id
              now
              new_id)
            o
            v)
unfolding enter lease_of
enter-lease valid registry owner visitor o v gate request_id now new_id =
    elim (Bool-cases (bad_gate valid gate)) [
      | inl bad ↦ rw (enter, bad) refl
      | inr good ↦
          rw (enter, good)
            (enter_with-lease registry owner visitor o v (lease_of registry owner visitor)
              gate.gate_id (gate_endpoint_of gate.gate_endpoints) request_id now new_id refl)
    ]

refresh-lease :
    (valid : List ℕ → Bool) (registry : Registry) (owner visitor o v : ℕ) (visit_id : List ℕ)
    (gate : Gate) (now : ℕ)
    → lease_of (refresh valid registry owner visitor visit_id gate now).0 o v ≡ (
        if bad_gate valid gate
        then lease_of registry o v
        else updated registry owner visitor
            (after_refresh
              (lease_of registry owner visitor)
              (with_id (lease_of registry owner visitor) visit_id)
              gate.gate_id
              (gate_endpoint_of gate.gate_endpoints)
              now)
            o
            v)
unfolding refresh lookup_locked lease_of
refresh-lease valid registry owner visitor o v visit_id gate now =
    elim (Bool-cases (bad_gate valid gate)) [
      | inl bad ↦ rw (refresh, bad) refl
      | inr good ↦
          rw (refresh, good)
            (refresh_found-lease registry owner visitor o v (lease_of registry owner visitor)
              (with_id (lease_of registry owner visitor) visit_id) gate.gate_id
              (gate_endpoint_of gate.gate_endpoints) now refl
              (λ existing e. with_id-some (lease_of registry owner visitor) visit_id existing e))
    ]

call_registry-lease :
    (valid : List ℕ → Bool) (registry : Registry) (call : Call) (o v : ℕ)
    → lease_of (call_registry valid registry call) o v
      ≡ call_lease valid o v (lease_of registry o v) call
call_registry-lease valid registry (Call.enter_call owner visitor gate request_id now new_id) o v =
    enter-lease valid registry owner visitor o v gate request_id now new_id
    ∙ ap (λ l. if bad_gate valid gate then lease_of registry o v else l)
        (at_lease registry owner visitor o v (λ lease.
          lease_enter lease owner visitor gate.gate_id (gate_endpoint_of gate.gate_endpoints)
            request_id now new_id))
call_registry-lease valid registry (Call.refresh_call owner visitor visit_id gate now) o v =
    refresh-lease valid registry owner visitor o v visit_id gate now
    ∙ ap (λ l. if bad_gate valid gate then lease_of registry o v else l)
        (at_lease registry owner visitor o v (λ lease.
          after_refresh lease (with_id lease visit_id) gate.gate_id
            (gate_endpoint_of gate.gate_endpoints) now))
call_registry-lease valid registry (Call.exit_call owner visitor visit_id) o v =
    exit-lease registry owner visitor o v visit_id
    ∙ at_lease registry owner visitor o v (λ lease. end_if lease (with_id lease visit_id))
call_registry-lease valid registry (Call.evict_call now) o v = evict_expired-lease now registry o v

-- After any sequence of calls of Enter, Refresh, Exit and EvictExpired, the lease of every owner
-- and visitor is what the calls make of that lease alone: a call for another owner or visitor
-- leaves it, Enter grants or renews it, Refresh renews it or ends it if it has expired, Exit ends
-- it if the visit ID fits, and EvictExpired ends it exactly if it has expired.
pub run_registry-lease :
    (valid : List ℕ → Bool) (registry : Registry) (calls : List Call) (o v : ℕ)
    → lease_of (run_registry valid registry calls) o v
      ≡ run_lease valid o v (lease_of registry o v) calls
run_registry-lease valid registry [] o v = refl
run_registry-lease valid registry (call ∷ calls) o v =
    run_registry-lease valid (call_registry valid registry call) calls o v
    ∙ ap (λ lease. run_lease valid o v lease calls) (call_registry-lease valid registry call o v)
