-- ===== src/Visit/Tests.antt =====
-- Examples for visits: a visitor enters, retries, is renewed by a heartbeat, and is evicted.
use supernova_classic_farm.Base.Bytes.{bytes_equal}
use supernova_classic_farm.Base.Map.{insert, lookup, erase}
use supernova_classic_farm.Visit.Eviction.{evict_expired}
use supernova_classic_farm.Base.{
  ℕ, ◌+◌, ◌≡◌, refl, Bool, true, none, List, [], ◌∷◌, ok, err, leb, if◌then◌else◌,
}
use supernova_classic_farm.Visit.{
  Registry, VisitError, Gate, visit_ttl, enter, validate_visit, refresh,
}
use supernova_classic_farm.Visit.Leases.{lease_of}
use supernova_classic_farm.Visit.Refinement.{Call, run_registry, run_lease, run_registry-lease}
use supernova_classic_farm.Visit.Lifetime.{enter-validate_visit}

abbrev valid : List ℕ → Bool
valid endpoint = true

abbrev gate : Gate
gate = record { gate_id = b'g' ∷ []; gate_endpoints = [] }

abbrev calls : List Call
calls =
    Call.enter_call 1 2 gate (7 ∷ []) 10 (ok (5 ∷ []))
    ∷ Call.enter_call 1 3 gate [] 20 (ok (6 ∷ []))
    ∷ Call.refresh_call 1 2 (5 ∷ []) gate 50000000000
    ∷ Call.evict_call 90000000025
    ∷ []

run_registry-lease_example :
    lease_of (run_registry valid [] calls) 1 2 ≡ run_lease valid 1 2 (lease_of [] 1 2) calls
run_registry-lease_example = run_registry-lease valid [] calls 1 2

other_visitor_evicted : lease_of (run_registry valid [] calls) 1 3 ≡ none
unfolding lease_of lookup evict_expired refresh enter insert bytes_equal erase
other_visitor_evicted = refl

abbrev entered : Registry
entered = (enter valid [] 1 2 gate (7 ∷ []) 10 (ok (5 ∷ []))).0

entering : (enter valid [] 1 2 gate (7 ∷ []) 10 (ok (5 ∷ []))).1 ≡ ok (5 ∷ [], 90000000010, true)
unfolding enter lookup
entering = refl

enter-validate_visit_example :
    validate_visit entered 1 2 (5 ∷ []) 40
    ≡ (if leb (10 + visit_ttl) 40 then err VisitError.visit_expired else ok tt)
enter-validate_visit_example =
    enter-validate_visit valid [] 1 2 gate (7 ∷ []) 10 40 (ok (5 ∷ [])) (5 ∷ []) 90000000010 true
      entering
