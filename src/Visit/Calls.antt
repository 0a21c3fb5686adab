-- ===== src/Visit/Calls.antt =====
-- Each call of server/internal/visit/registry.go changes one lease, as Visit.Leases says, and no
-- other; an eviction ends exactly the expired ones.
use supernova_classic_farm.Base.{
  ℕ, ◌≡◌, refl, sym, ap, ◌∙◌, inl, inr, Bool, true, false, Option, none, some, List, Result, ok,
  err, leb, ◌==◌, if◌then◌else◌, Bool-cases,
}
use supernova_classic_farm.Base.Map.{lookup, lookup-insert}
use supernova_classic_farm.Visit.{
  VisitRecord, OwnerVisits, Registry, VisitError, visits_of, without_visitor, renewed, new_visit,
  same_gate, is_retry, grant, enter_with, remove_locked, refresh_found,
}
use supernova_classic_farm.Visit.Leases.{
  lease_of, lease_enter, lease_refresh, updated, same_owner, lease_of-insert, lease_of-put,
  updated_same, lease_of-set, lease_of-without,
}

-- `Refresh` on one lease; `asked` is the lease if the visit ID is right.
abbrev pub after_refresh :
    Option VisitRecord → Option VisitRecord → List ℕ → List ℕ → ℕ → Option VisitRecord
after_refresh found none gate_id endpoint now = found
after_refresh found (some existing) gate_id endpoint now =
    lease_refresh existing gate_id endpoint now

module _ (registry : Registry) (owner visitor : ℕ) (o v : ℕ) where
  grant-lease :
      (visits : OwnerVisits) (gate_id endpoint request_id : List ℕ) (now : ℕ)
      (new_id : Result VisitError (List ℕ))
      → ((w : ℕ)
          → lookup w visits.by_visitor ≡ (if visitor == w then none else lease_of registry owner w))
      → lease_of (grant registry visits owner visitor gate_id endpoint request_id now new_id).0 o v
        ≡ updated registry owner visitor
            (lease_enter none owner visitor gate_id endpoint request_id now new_id)
            o
            v
  unfolding grant lease_enter
  grant-lease visits gate_id endpoint request_id now (err failed) h =
      lease_of-insert registry owner visitor o v visits none h
  grant-lease visits gate_id endpoint request_id now (ok id) h =
      let lease = new_visit owner visitor id gate_id endpoint request_id now in
      lease_of-insert registry owner visitor o v _ (some lease) (λ w.
        lookup-insert visitor w lease visits.by_visitor
        ∙ replaced (visitor == w) (some lease) (lease_of registry owner w) (h w))
    where
      replaced :
          (b : Bool) {found : Option VisitRecord} (lease other : Option VisitRecord)
          → found ≡ (if b then none else other)
          → (if b then lease else found) ≡ (if b then lease else other)
      replaced true lease other e = refl
      replaced false lease other e = e

  absent_lease :
      lease_of registry owner visitor ≡ none
      → (w : ℕ)
      → lookup w (visits_of registry owner).by_visitor
        ≡ (if visitor == w then none else lease_of registry owner w)
  unfolding lease_of
  absent_lease e w = elim (Bool-cases (visitor == w)) [
    | inl same ↦ rw same (
        ap (λ p. lookup p (visits_of registry owner).by_visitor) (sym (same_owner visitor w same))
        ∙ e)
    | inr apart ↦ rw apart refl
  ]

  pub lease_enter-fresh :
      (existing : VisitRecord) (gate_id endpoint request_id : List ℕ) (now : ℕ)
      (new_id : Result VisitError (List ℕ))
      → is_retry existing request_id ≡ false
      → lease_enter (some existing) owner visitor gate_id endpoint request_id now new_id
        ≡ lease_enter none owner visitor gate_id endpoint request_id now new_id
  unfolding lease_enter
  lease_enter-fresh existing gate_id endpoint request_id now (err failed) e = rw e refl
  lease_enter-fresh existing gate_id endpoint request_id now (ok id) e = rw e refl

  pub lease_enter-retry :
      (existing : VisitRecord) (gate_id endpoint request_id : List ℕ) (now : ℕ)
      (new_id : Result VisitError (List ℕ))
      → is_retry existing request_id ≡ true
      → lease_enter (some existing) owner visitor gate_id endpoint request_id now new_id
        ≡ some (if same_gate existing gate_id endpoint then renewed existing now else existing)
  unfolding lease_enter
  lease_enter-retry existing gate_id endpoint request_id now new_id e = rw e refl

  pub enter_with-lease :
      (found : Option VisitRecord) (gate_id endpoint request_id : List ℕ) (now : ℕ)
      (new_id : Result VisitError (List ℕ))
      → lease_of registry owner visitor ≡ found
      → lease_of
          (enter_with registry found owner visitor gate_id endpoint request_id now new_id).0
          o
          v
        ≡ updated registry owner visitor
            (lease_enter found owner visitor gate_id endpoint request_id now new_id)
            o
            v
  unfolding enter_with
  enter_with-lease none gate_id endpoint request_id now new_id e =
      grant-lease (visits_of registry owner) gate_id endpoint request_id now new_id (absent_lease e)
  enter_with-lease (some existing) gate_id endpoint request_id now new_id e =
      elim (Bool-cases (is_retry existing request_id)) [
        | inr new ↦
            rw
              (
                lease_enter-fresh existing gate_id endpoint request_id now new_id new,
                enter_with,
                new,
              )
              (grant-lease (without_visitor (visits_of registry owner) visitor existing) gate_id
                endpoint request_id now new_id (lease_of-without registry owner visitor existing))
        | inl retry ↦ elim (Bool-cases (same_gate existing gate_id endpoint)) [
          | inl same ↦
              rw
                (
                  lease_enter-retry existing gate_id endpoint request_id now new_id retry,
                  enter_with,
                  retry,
                  same,
                )
                (lease_of-insert registry owner visitor o v _ (some (renewed existing now))
                  (lease_of-set registry owner visitor (renewed existing now)))
          | inr other ↦
              rw
                (
                  lease_enter-retry existing gate_id endpoint request_id now new_id retry,
                  enter_with,
                  retry,
                  other,
                )
                (sym (updated_same registry owner visitor o v)
                  ∙ ap (λ lease. updated registry owner visitor lease o v) e)
        ]
      ]

  pub remove_locked-lease :
      (existing : VisitRecord)
      → lease_of (remove_locked registry owner visitor existing) o v
        ≡ updated registry owner visitor none o v
  unfolding remove_locked
  remove_locked-lease existing =
      lease_of-put registry owner visitor o v _ none
        (lease_of-without registry owner visitor existing)

  -- A call that leaves the registry as it was.
  pub unchanged :
      (lease : Option VisitRecord)
      → lease_of registry owner visitor ≡ lease
      → lease_of registry o v ≡ updated registry owner visitor lease o v
  unchanged lease e =
      sym (updated_same registry owner visitor o v)
      ∙ ap (λ l. updated registry owner visitor l o v) e

  pub refresh_found-lease :
      (found asked : Option VisitRecord) (gate_id endpoint : List ℕ) (now : ℕ)
      → lease_of registry owner visitor ≡ found
      → ((existing : VisitRecord) → asked ≡ some existing → found ≡ some existing)
      → lease_of (refresh_found registry owner visitor gate_id endpoint now asked).0 o v
        ≡ updated registry owner visitor (after_refresh found asked gate_id endpoint now) o v
  unfolding refresh_found lease_refresh
  refresh_found-lease found none gate_id endpoint now e h = unchanged found e
  refresh_found-lease found (some existing) gate_id endpoint now e h =
      elim (Bool-cases (leb existing.expires_at now)) [
        | inl old ↦ rw old (remove_locked-lease existing)
        | inr live ↦ elim (Bool-cases (same_gate existing gate_id endpoint)) [
          | inr other ↦ rw (live, other) (unchanged (some existing) (e ∙ h existing refl))
          | inl same ↦
              rw (live, same)
                (lease_of-insert registry owner visitor o v _ (some (renewed existing now))
                  (lease_of-set registry owner visitor (renewed existing now)))
        ]
      ]
