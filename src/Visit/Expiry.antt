-- ===== src/Visit/Expiry.antt =====
-- `EvictExpired` of server/internal/visit/registry.go ends exactly the expired leases.
use supernova_classic_farm.Base.{
  ℕ, ◌≡◌, refl, sym, ap, ◌∙◌, inl, inr, Bool, true, false, ◌||◌, Option, none, some, List, [], ◌∷◌,
  leb, ◌==◌, if◌then◌else◌, Bool-cases, Option-cases,
}
use supernova_classic_farm.Base.Map.{Map, lookup, lookup-erase}
use supernova_classic_farm.Visit.{
  VisitRecord, OwnerVisits, Registry, visits_found, visits_of, without_visitor, put_visits,
}
use supernova_classic_farm.Visit.Eviction.{keys, evict_visitors, evict_owners, evict_expired}
use supernova_classic_farm.Visit.Leases.{lease_of, same_owner, visits_of-put}

-- What an eviction leaves of one lease.
unfoldable pub evict_lease : ℕ → Option VisitRecord → Option VisitRecord
evict_lease now none = none
evict_lease now (some existing) = if leb existing.expires_at now then none else some existing

abbrev member : ℕ → List ℕ → Bool
member v [] = false
member v (x ∷ xs) = x == v || member v xs

evict_lease_twice :
    (now : ℕ) (lease : Option VisitRecord)
    → evict_lease now (evict_lease now lease) ≡ evict_lease now lease
unfolding evict_lease
evict_lease_twice now none = refl
evict_lease_twice now (some existing) = elim (Bool-cases (leb existing.expires_at now)) [
  | inl old ↦ rw old refl
  | inr live ↦ rw (live) (rw live refl)
]

-- A lease that one more key of the list evicts, or does not.
abbrev swept : ℕ → Bool → Option VisitRecord → Option VisitRecord
swept now b lease = if b then evict_lease now lease else lease

swept_again :
    (now : ℕ) (b : Bool) (lease : Option VisitRecord)
    → swept now b (evict_lease now lease) ≡ evict_lease now lease
swept_again now true lease = evict_lease_twice now lease
swept_again now false lease = refl

swept_gone : (now : ℕ) (b : Bool) → swept now b none ≡ none
unfolding evict_lease
swept_gone now true = refl
swept_gone now false = refl

-- A key that is passed over, since its lease stays, and one whose lease is deleted.
head_kept :
    (now : ℕ) (at rest : Bool) (lease : Option VisitRecord)
    → (at ≡ true → evict_lease now lease ≡ lease)
    → swept now rest lease ≡ swept now (at || rest) lease
head_kept now false rest lease h = refl
head_kept now true true lease h = refl
head_kept now true false lease h = sym (h refl)

head_dropped :
    (now : ℕ) (at rest : Bool) (lease : Option VisitRecord)
    → (at ≡ true → evict_lease now lease ≡ none)
    → swept now rest (if at then none else lease) ≡ swept now (at || rest) lease
head_dropped now false rest lease h = refl
head_dropped now true rest lease h = swept_gone now rest ∙ sym (h refl)

evict_visitors-lookup :
    (now : ℕ) (visitors : List ℕ) (visits : OwnerVisits) (v : ℕ)
    → lookup v (evict_visitors now visitors visits).0.by_visitor
      ≡ swept now (member v visitors) (lookup v visits.by_visitor)
unfolding evict_visitors evict_lease without_visitor
evict_visitors-lookup now [] visits v = refl
evict_visitors-lookup now (x ∷ xs) visits v = elim (Option-cases (lookup x visits.by_visitor)) [
  | inl e ↦
      rw (evict_visitors, e)
        (evict_visitors-lookup now xs visits v
          ∙ head_kept now (x == v) (member v xs) (lookup v visits.by_visitor)
              (λ at. let q = at_key at ∙ e in rw q refl))
  | inr (existing, e) ↦ elim (Bool-cases (leb existing.expires_at now)) [
    | inr live ↦
        rw (evict_visitors, e, live)
          (evict_visitors-lookup now xs visits v
            ∙ head_kept now (x == v) (member v xs) (lookup v visits.by_visitor)
                (λ at. let q = at_key at ∙ e in rw q (rw live refl)))
    | inl old ↦
        rw (evict_visitors, e, old)
          (evict_visitors-lookup now xs (without_visitor visits x existing) v
            ∙ ap (λ l. swept now (member v xs) l) (lookup-erase x v visits.by_visitor)
            ∙ head_dropped now (x == v) (member v xs) (lookup v visits.by_visitor)
                (λ at. let q = at_key at ∙ e in rw q (rw old refl)))
  ]
]
  where
    at_key : (x == v) ≡ true → lookup v visits.by_visitor ≡ lookup x visits.by_visitor
    at_key at = ap (λ k. lookup k visits.by_visitor) (sym (same_owner x v at))

member-keys : {V : Type 0} (m : Map V) (k : ℕ) → member k (keys m) ≡ false → lookup k m ≡ none
unfolding lookup
member-keys [] k h = refl
member-keys (entry ∷ entries) k h = elim (Bool-cases (entry.0 == k)) [
  | inl e ↦ absurd (impossible (rw e at h))
  | inr e ↦ rw e (member-keys entries k (rw e at h))
]
  where
    impossible : true ≡ false → ⊥
    impossible h = cc

swept-keys :
    (now : ℕ) (visits : OwnerVisits) (v : ℕ)
    → swept now (member v (keys visits.by_visitor)) (lookup v visits.by_visitor)
      ≡ evict_lease now (lookup v visits.by_visitor)
unfolding evict_lease
swept-keys now visits v = elim (Bool-cases (member v (keys visits.by_visitor))) [
  | inl e ↦ rw e refl
  | inr e ↦ (let q = member-keys visits.by_visitor v e in rw (e, q) refl)
]

-- An owner that is met, in the registry after its visitors were swept.
lease_of_found :
    (registry : Registry) (x v : ℕ) (found : Option OwnerVisits)
    → lookup x registry ≡ found
    → lease_of registry x v ≡ lookup v (visits_found found).by_visitor
unfolding lease_of visits_of
lease_of_found registry x v found e = ap (λ f. lookup v (visits_found f).by_visitor) e

swept_owner :
    (now : ℕ) (registry : Registry) (x o v : ℕ) (visits : OwnerVisits)
    → lookup x registry ≡ some visits
    → lease_of (put_visits registry x (evict_visitors now (keys visits.by_visitor) visits).0) o v
      ≡ (if x == o then evict_lease now (lease_of registry o v) else lease_of registry o v)
unfolding lease_of
swept_owner now registry x o v visits e =
    let kept = (evict_visitors now (keys visits.by_visitor) visits).0 in
    elim (Bool-cases (x == o)) [
      | inr apart ↦ rw (visits_of-put registry x o kept, apart) refl
      | inl at ↦
          rw (visits_of-put registry x o kept, at)
            (evict_visitors-lookup now (keys visits.by_visitor) visits v
              ∙ swept-keys now visits v
              ∙ ap (evict_lease now) (
                  sym (lease_of_found registry x v (some visits) e)
                  ∙ ap (λ k. lease_of registry k v) (same_owner x o at)))
    ]

swept_step :
    (now : ℕ) (at rest : Bool) (lease : Option VisitRecord)
    → swept now rest (if at then evict_lease now lease else lease) ≡ swept now (at || rest) lease
swept_step now true rest lease = swept_again now rest lease
swept_step now false rest lease = refl

evict_owners-lease :
    (now : ℕ) (owners : List ℕ) (registry : Registry) (o v : ℕ)
    → lease_of (evict_owners now owners registry).0 o v
      ≡ swept now (member o owners) (lease_of registry o v)
unfolding evict_owners evict_lease lookup
evict_owners-lease now [] registry o v = refl
evict_owners-lease now (x ∷ xs) registry o v = elim (Option-cases (lookup x registry)) [
  | inl e ↦
      rw (evict_owners, e)
        (evict_owners-lease now xs registry o v
          ∙ head_kept now (x == o) (member o xs) (lease_of registry o v) (λ at.
            let q = ap (λ k. lease_of registry k v) (sym (same_owner x o at)) ∙ no_owner e in
            rw q refl))
  | inr (visits, e) ↦
      (let kept = evict_visitors now (keys visits.by_visitor) visits in
        rw (evict_owners, e)
          (evict_owners-lease now xs (put_visits registry x kept.0) o v
            ∙ ap (swept now (member o xs)) (swept_owner now registry x o v visits e)
            ∙ swept_step now (x == o) (member o xs) (lease_of registry o v)))
]
  where
    no_owner : lookup x registry ≡ none → lease_of registry x v ≡ none
    no_owner e = lease_of_found registry x v none e

-- An eviction ends the leases that have expired and leaves all others.
pub evict_expired-lease :
    (now : ℕ) (registry : Registry) (o v : ℕ)
    → lease_of (evict_expired registry now).0 o v ≡ evict_lease now (lease_of registry o v)
unfolding evict_expired evict_lease lookup
evict_expired-lease now registry o v =
    evict_owners-lease now (keys registry) registry o v
    ∙ elim (Bool-cases (member o (keys registry))) [
      | inl e ↦ rw e refl
      | inr e ↦
          (let q = lease_of_found registry o v none (member-keys registry o e) in rw (e, q) refl)
    ]
