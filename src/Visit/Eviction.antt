-- ===== src/Visit/Eviction.antt =====
-- `EvictExpired`, `ListVisitors` and `HasVisitors` of server/internal/visit/registry.go.
use supernova_classic_farm.Base.{
  ℕ, Bool, true, false, not, none, some, List, [], ◌∷◌, ◌++◌, leb, if◌then◌else◌,
}
use supernova_classic_farm.Base.Map.{Map, lookup}
use supernova_classic_farm.Visit.{
  VisitRecord, OwnerVisits, Registry, visits_of, without_visitor, put_visits,
}

abbrev pub keys : {V : Type 0} → Map V → List ℕ
keys [] = []
keys (entry ∷ entries) = entry.0 ∷ keys entries

-- The inner loop of `EvictExpired`, over the visitors of an owner.
unfoldable pub evict_visitors : ℕ → List ℕ → OwnerVisits → OwnerVisits × List VisitRecord
unfolding without_visitor
evict_visitors now [] visits = (visits, [])
evict_visitors now (visitor ∷ visitors) visits = elim (lookup visitor visits.by_visitor) [
  | none ↦ evict_visitors now visitors visits
  | some existing ↦ elim (leb existing.expires_at now) [
    | false ↦ evict_visitors now visitors visits
    | true ↦
        (let rest = evict_visitors now visitors (without_visitor visits visitor existing) in
          (rest.0, existing ∷ rest.1))
  ]
]

-- The outer loop, over the owners.
unfoldable pub evict_owners : ℕ → List ℕ → Registry → Registry × List VisitRecord
unfolding evict_visitors put_visits
evict_owners now [] registry = (registry, [])
evict_owners now (owner ∷ owners) registry = elim (lookup owner registry) [
  | none ↦ evict_owners now owners registry
  | some visits ↦
      (let kept = evict_visitors now (keys visits.by_visitor) visits in
        let rest = evict_owners now owners (put_visits registry owner kept.0) in
        (rest.0, kept.1 ++ rest.1))
]

unfoldable pub evict_expired : Registry → ℕ → Registry × List VisitRecord
unfolding evict_owners
evict_expired registry now = evict_owners now (keys registry) registry

abbrev values : {V : Type 0} → Map V → List V
values [] = []
values (entry ∷ entries) = entry.1 ∷ values entries

unfoldable pub list_visitors : Registry → ℕ → List VisitRecord
unfolding visits_of
list_visitors registry owner = values (visits_of registry owner).by_visitor

abbrev any_live : List VisitRecord → ℕ → Bool
any_live [] now = false
any_live (existing ∷ others) now =
    if not (leb existing.expires_at now) then true else any_live others now

unfoldable pub has_visitors : Registry → ℕ → ℕ → Bool
unfolding list_visitors
has_visitors registry owner now = any_live (list_visitors registry owner) now
