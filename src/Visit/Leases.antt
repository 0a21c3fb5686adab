-- ===== src/Visit/Leases.antt =====
-- The registry of visits seen as one lease for each owner and visitor, and what each call of
-- server/internal/visit/registry.go does to a lease.
use supernova_classic_farm.Base.{
  ℕ, ◌≡◌, refl, sym, ap, ◌∙◌, inl, inr, Bool, true, false, Option, none, some, List, [], ◌∷◌,
  Result, ok, err, arith, leb, ◌==◌, if◌then◌else◌, length, Bool-cases,
}
use supernova_classic_farm.Base.Map.{Map, lookup, insert, erase, lookup-insert, lookup-erase}
use supernova_classic_farm.Visit.{
  VisitRecord, OwnerVisits, Registry, VisitError, no_visits, visits_found, visits_of,
  without_visitor, renewed, new_visit, same_gate, is_retry, put_visits,
}

unfoldable pub lease_of : Registry → ℕ → ℕ → Option VisitRecord
unfolding visits_of
lease_of registry owner visitor = lookup visitor (visits_of registry owner).by_visitor

-- `Enter` on one lease.
unfoldable pub lease_enter :
    Option VisitRecord
    → ℕ
    → ℕ
    → List ℕ
    → List ℕ
    → List ℕ
    → ℕ
    → Result VisitError (List ℕ)
    → Option VisitRecord
lease_enter none owner visitor gate_id endpoint request_id now (err failed) = none
lease_enter none owner visitor gate_id endpoint request_id now (ok id) =
    some (new_visit owner visitor id gate_id endpoint request_id now)
lease_enter (some existing) owner visitor gate_id endpoint request_id now new_id =
    if is_retry existing request_id
    then some (if same_gate existing gate_id endpoint then renewed existing now else existing)
    else (elim new_id [
      | err failed ↦ none
      | ok id ↦ some (new_visit owner visitor id gate_id endpoint request_id now)
    ])

-- `Refresh` on the lease with the right visit ID: an expired one ends.
unfoldable pub lease_refresh : VisitRecord → List ℕ → List ℕ → ℕ → Option VisitRecord
lease_refresh existing gate_id endpoint now =
    if leb existing.expires_at now
    then none
    else some (if same_gate existing gate_id endpoint then renewed existing now else existing)

-- One update of the visits of an owner, seen from any lease.
abbrev pub updated : Registry → ℕ → ℕ → Option VisitRecord → ℕ → ℕ → Option VisitRecord
updated registry owner visitor lease o v =
    if owner == o
    then (if visitor == v then lease else lease_of registry o v)
    else lease_of registry o v

pub same_owner : (a b : ℕ) → (a == b) ≡ true → a ≡ b
same_owner a b h = ground arith

chosen :
    (b : Bool) (first second : Option OwnerVisits)
    → visits_found (if b then first else second)
      ≡ (if b then visits_found first else visits_found second)
chosen true first second = refl
chosen false first second = refl

visits_of-erase :
    (registry : Registry) (owner o : ℕ)
    → visits_of (erase owner registry) o ≡ (if owner == o then no_visits else visits_of registry o)
unfolding visits_of
visits_of-erase registry owner o =
    ap visits_found (lookup-erase owner o registry) ∙ chosen (owner == o) none (lookup o registry)

visits_of-insert :
    (registry : Registry) (owner o : ℕ) (visits : OwnerVisits)
    → visits_of (insert owner visits registry) o
      ≡ (if owner == o then visits else visits_of registry o)
unfolding visits_of
visits_of-insert registry owner o visits =
    ap visits_found (lookup-insert owner o visits registry)
    ∙ chosen (owner == o) (some visits) (lookup o registry)

pub lease_of-insert :
    (registry : Registry) (owner visitor o v : ℕ) (visits : OwnerVisits)
    (lease : Option VisitRecord)
    → ((w : ℕ)
        → lookup w visits.by_visitor ≡ (if visitor == w then lease else lease_of registry owner w))
    → lease_of (insert owner visits registry) o v ≡ updated registry owner visitor lease o v
unfolding lease_of
lease_of-insert registry owner visitor o v visits lease h = elim (Bool-cases (owner == o)) [
  | inl e ↦
      (let same = same_owner owner o e in
        rw (visits_of-insert registry owner o visits, e)
          (h v
            ∙ ap (λ p. if visitor == v then lease else lookup v (visits_of registry p).by_visitor)
                same))
  | inr e ↦ rw (visits_of-insert registry owner o visits, e) refl
]

empty_map : {V : Type 0} (m : Map V) → (length m == 0) ≡ true → m ≡ []
empty_map [] h = refl
empty_map (entry ∷ entries) h = absurd (ground arith)

pub visits_of-put :
    (registry : Registry) (owner o : ℕ) (visits : OwnerVisits)
    → (visits_of (put_visits registry owner visits) o).by_visitor
      ≡ (if owner == o then visits.by_visitor else (visits_of registry o).by_visitor)
unfolding put_visits
visits_of-put registry owner o visits = elim (Bool-cases (length visits.by_visitor == 0)) [
  | inr full ↦ rw full (
      ap (λ found. found.by_visitor) (visits_of-insert registry owner o visits)
      ∙ field (owner == o) visits (visits_of registry o))
  | inl empty ↦ rw empty (
      ap (λ found. found.by_visitor) (visits_of-erase registry owner o)
      ∙ field (owner == o) no_visits (visits_of registry o)
      ∙ ap (λ m. if owner == o then m else (visits_of registry o).by_visitor)
          (sym (empty_map visits.by_visitor empty)))
]
  where
    field :
        (b : Bool) (first second : OwnerVisits)
        → (if b then first else second).by_visitor
          ≡ (if b then first.by_visitor else second.by_visitor)
    field true first second = refl
    field false first second = refl

pub lease_of-put :
    (registry : Registry) (owner visitor o v : ℕ) (visits : OwnerVisits)
    (lease : Option VisitRecord)
    → ((w : ℕ)
        → lookup w visits.by_visitor ≡ (if visitor == w then lease else lease_of registry owner w))
    → lease_of (put_visits registry owner visits) o v ≡ updated registry owner visitor lease o v
unfolding lease_of
lease_of-put registry owner visitor o v visits lease h = elim (Bool-cases (owner == o)) [
  | inl e ↦
      (let same = same_owner owner o e in
        rw (visits_of-put registry owner o visits, e)
          (h v
            ∙ ap (λ p. if visitor == v then lease else lookup v (visits_of registry p).by_visitor)
                same))
  | inr e ↦ rw (visits_of-put registry owner o visits, e) refl
]

-- A lease that is put back as it was.
pub updated_same :
    (registry : Registry) (owner visitor o v : ℕ)
    → updated registry owner visitor (lease_of registry owner visitor) o v ≡ lease_of registry o v
updated_same registry owner visitor o v = elim (Bool-cases (owner == o)) [
  | inr e ↦ rw e refl
  | inl e ↦ elim (Bool-cases (visitor == v)) [
    | inr f ↦ rw (e, f) refl
    | inl f ↦
        rw (e, f)
          (ap (λ p. lease_of registry p visitor) (same_owner owner o e)
            ∙ ap (λ w. lease_of registry o w) (same_owner visitor v f))
  ]
]

-- The visits of an owner with one lease replaced, or taken away.
pub lease_of-set :
    (registry : Registry) (owner visitor : ℕ) (lease : VisitRecord) (w : ℕ)
    → lookup w (insert visitor lease (visits_of registry owner).by_visitor)
      ≡ (if visitor == w then some lease else lease_of registry owner w)
unfolding lease_of
lease_of-set registry owner visitor lease w =
    lookup-insert visitor w lease (visits_of registry owner).by_visitor

pub lease_of-without :
    (registry : Registry) (owner visitor : ℕ) (existing : VisitRecord) (w : ℕ)
    → lookup w (without_visitor (visits_of registry owner) visitor existing).by_visitor
      ≡ (if visitor == w then none else lease_of registry owner w)
unfolding lease_of without_visitor
lease_of-without registry owner visitor existing w =
    lookup-erase visitor w (visits_of registry owner).by_visitor
