-- ===== src/Visit/Lifetime.antt =====
-- A lease that `Enter` of server/internal/visit/registry.go has granted or renewed is valid until
-- its expiry.
use mathlib.Core.Path.{subst}
use supernova_classic_farm.Base.{
  ℕ, ◌+◌, ◌≡◌, refl, sym, ap, ◌∙◌, inl, inr, Bool, true, false, Option, none, some, List, Result,
  ok, err, arith, leb, ◌==◌, if◌then◌else◌, Bool-cases, ok_of_err,
}
use supernova_classic_farm.Base.Bytes.{bytes_equal_refl}
use supernova_classic_farm.Visit.{
  VisitRecord, Registry, VisitError, Gate, gate_endpoint_of, visits_of, bad_gate, enter, with_id,
  lookup_locked, visit_ttl, check_lease, validate_visit, grant, enter_with, is_retry, same_gate,
  renewed, new_visit, without_visitor, OwnerVisits, Entered,
}
use supernova_classic_farm.Visit.Leases.{lease_of, lease_enter, updated}
use supernova_classic_farm.Visit.Calls.{lease_enter-fresh, lease_enter-retry}
use supernova_classic_farm.Visit.Refinement.{enter-lease}

-- The lease that an answer speaks of.
record IsAnswer (lease : Option VisitRecord) (id : List ℕ) (now : ℕ) : Type 0 where
  held : VisitRecord
  in_use : lease ≡ some held
  named : held.visit_id ≡ id
  until : held.expires_at ≡ now + visit_ttl

abbrev answered : List ℕ → ℕ → Bool → Entered
answered id expires_at newly_created = ok (id, expires_at, newly_created)

same_id : (a b : List ℕ) (t u : ℕ) (x y : Bool) → answered a t x ≡ ok (b, u, y) → a ≡ b
same_id a b t u x y h = cc

module _ (registry : Registry) (owner visitor : ℕ) (gate_id endpoint request_id : List ℕ) (now : ℕ)
    (id : List ℕ) (expires_at : ℕ) (newly_created : Bool) where
  grant-IsAnswer :
      (visits : OwnerVisits) (new_id : Result VisitError (List ℕ))
      → (grant registry visits owner visitor gate_id endpoint request_id now new_id).1
        ≡ ok (id, expires_at, newly_created)
      → IsAnswer (lease_enter none owner visitor gate_id endpoint request_id now new_id) id now
  unfolding grant lease_enter new_visit
  grant-IsAnswer visits (err failed) h = cc
  grant-IsAnswer visits (ok made) h = record {
    held = new_visit owner visitor made gate_id endpoint request_id now;
    in_use = refl;
    named = same_id made id _ _ _ _ h;
    until = refl;
  }

  enter_with-IsAnswer :
      (found : Option VisitRecord) (new_id : Result VisitError (List ℕ))
      → (enter_with registry found owner visitor gate_id endpoint request_id now new_id).1
        ≡ ok (id, expires_at, newly_created)
      → IsAnswer (lease_enter found owner visitor gate_id endpoint request_id now new_id) id now
  unfolding enter_with renewed
  enter_with-IsAnswer none new_id h = grant-IsAnswer (visits_of registry owner) new_id h
  enter_with-IsAnswer (some existing) new_id h = elim (Bool-cases (is_retry existing request_id)) [
    | inr new ↦
        subst (λ lease. IsAnswer lease id now)
          (sym (
            lease_enter-fresh registry owner visitor owner visitor existing gate_id endpoint
              request_id now new_id new))
          (grant-IsAnswer (without_visitor (visits_of registry owner) visitor existing) new_id
            (rw (enter_with, new) at h))
    | inl retry ↦ elim (Bool-cases (same_gate existing gate_id endpoint)) [
      | inr other ↦
          ok_of_err (err VisitError.visit_not_found) (rw (enter_with, retry, other) at h) refl
      | inl same ↦ record {
        held = renewed existing now;
        in_use =
            lease_enter-retry registry owner visitor owner visitor existing gate_id endpoint
              request_id now new_id retry
            ∙ kept same;
        named = same_id existing.visit_id id _ _ _ _ (rw (enter_with, retry, same) at h);
        until = refl;
      }
    ]
  ]
    where
      kept :
          same_gate existing gate_id endpoint ≡ true
          → some (if same_gate existing gate_id endpoint then renewed existing now else existing)
            ≡ some (renewed existing now)
      kept same = rw same refl

itself : (n : ℕ) → (n == n) ≡ true
itself n = ground arith

check_answer :
    (lease : Option VisitRecord) (id : List ℕ) (now later : ℕ)
    → IsAnswer lease id now
    → check_lease (with_id lease id) later
      ≡ (if leb (now + visit_ttl) later then err VisitError.visit_expired else ok tt)
unfolding check_lease with_id
check_answer lease id now later answer =
    rw (answer.in_use, answer.named, bytes_equal_refl id, answer.until) refl

-- If Enter answers with a visit ID, a lease it granted or renewed, then directly afterwards that
-- ID is validated at any time before the end of the 90 seconds from the time of Enter, and is
-- reported as expired at any time from then on.
pub enter-validate_visit :
    (valid : List ℕ → Bool) (registry : Registry) (owner visitor : ℕ) (gate : Gate)
    (request_id : List ℕ) (now later : ℕ) (new_id : Result VisitError (List ℕ)) (id : List ℕ)
    (expires_at : ℕ) (newly_created : Bool)
    → (enter valid registry owner visitor gate request_id now new_id).1
      ≡ ok (id, expires_at, newly_created)
    → validate_visit
        (enter valid registry owner visitor gate request_id now new_id).0
        owner
        visitor
        id
        later
      ≡ (if leb (now + visit_ttl) later then err VisitError.visit_expired else ok tt)
unfolding enter validate_visit lookup_locked lease_of
enter-validate_visit valid registry owner visitor gate request_id now later new_id id expires_at
      newly_created h =
    elim (Bool-cases (bad_gate valid gate)) [
      | inl bad ↦ ok_of_err (err VisitError.invalid_gate_target) (rw (enter, bad) at h) refl
      | inr good ↦
          (let answer =
              enter_with-IsAnswer registry owner visitor gate.gate_id
                (gate_endpoint_of gate.gate_endpoints) request_id now id expires_at newly_created
                (lease_of registry owner visitor) new_id (rw (enter, good) at h) in
            let after =
              enter-lease valid registry owner visitor owner visitor gate request_id now new_id in
            ap (λ lease. check_lease (with_id lease id) later) (after ∙ own good)
            ∙ check_answer _ id now later answer)
    ]
  where
    own :
        bad_gate valid gate ≡ false
        → (if bad_gate valid gate
            then lease_of registry owner visitor
            else updated registry owner visitor
                (lease_enter
                  (lease_of registry owner visitor)
                  owner
                  visitor
                  gate.gate_id
                  (gate_endpoint_of gate.gate_endpoints)
                  request_id
                  now
                  new_id)
                owner
                visitor)
          ≡ lease_enter
              (lease_of registry owner visitor)
              owner
              visitor
              gate.gate_id
              (gate_endpoint_of gate.gate_endpoints)
              request_id
              now
              new_id
    own good = rw (good, itself owner, itself visitor) refl
