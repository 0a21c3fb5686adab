-- ===== src/RouteFeed/Changes.antt =====
-- The changes between two lists of entries, encoded and applied by `applyBatch` entry by entry.
use mathlib.Core.Path.{subst}
use mathlib.Core.List.{append_assoc}
use supernova_classic_farm.Base.{
  ℕ, ◌+◌, ◌≤◌, ◌<◌, ◌≡◌, refl, sym, ap, ◌∙◌, ◌⊎◌, inl, inr, Bool, true, false, ◌&&◌, Option, some,
  List, [], ◌∷◌, ◌++◌, ok, arith, leb, ◌==◌, length, length-append, All, Bool-cases, lt→leb_false,
}
use supernova_classic_farm.Base.Bytes.{bytes_equal-eq}
use supernova_classic_farm.Routing.{
  RouteState, RouteEntry, shard_count, entry_at, same_identity, same_state,
}
use supernova_classic_farm.RouteFeed.Message.{EncodedRoute, route_protos, resync}
use supernova_classic_farm.RouteFeed.Cache.{set_entry, seen_before, apply_routes}
use supernova_classic_farm.RouteFeed.Publish.{same_entry, changed_entries}
use supernova_classic_farm.RouteFeed.RoundTrip.{AreCarried, decode_route-route_proto}

both : (a b : Bool) → (a && b) ≡ true → (a ≡ true) × (b ≡ true)
both true b h = (refl, h)
both false b h = cc

tested_eq : (m n : ℕ) → (m == n) ≡ true → m ≡ n
tested_eq m n h = ground arith

same_state-eq : (s t : RouteState) → same_state s t ≡ true → s ≡ t
same_state-eq RouteState.unassigned RouteState.unassigned h = refl
same_state-eq RouteState.unassigned RouteState.preparing h = cc
same_state-eq RouteState.unassigned RouteState.active h = cc
same_state-eq RouteState.preparing RouteState.unassigned h = cc
same_state-eq RouteState.preparing RouteState.preparing h = refl
same_state-eq RouteState.preparing RouteState.active h = cc
same_state-eq RouteState.active RouteState.unassigned h = cc
same_state-eq RouteState.active RouteState.preparing h = cc
same_state-eq RouteState.active RouteState.active h = refl

same_entry-eq : (p c : RouteEntry) → same_entry p c ≡ true → p ≡ c
unfolding same_entry same_identity
same_entry-eq p c h =
    let (h0, expiry) = both (same_identity p c) (p.lease_expires_at == c.lease_expires_at) h in
    let (h1, updated) = both _ _ h0 in
    let (h2, transition) = both _ _ h1 in
    let (h3, previous) = both _ _ h2 in
    let (h4, lease) = both _ _ h3 in
    let (h5, term) = both _ _ h4 in
    let (h6, state) = both _ _ h5 in
    let (h7, version) = both _ _ h6 in
    let (h8, epoch) = both _ _ h7 in
    let (h9, endpoint) = both _ _ h8 in
    let (shard, owner) = both _ _ h9 in
    let e1 = tested_eq _ _ shard in
    let e2 = bytes_equal-eq _ _ owner in
    let e3 = bytes_equal-eq _ _ endpoint in
    let e4 = tested_eq _ _ epoch in
    let e5 = tested_eq _ _ version in
    let e6 = same_state-eq _ _ state in
    let e7 = tested_eq _ _ term in
    let e8 = bytes_equal-eq _ _ lease in
    let e9 = tested_eq _ _ expiry in
    let e10 = bytes_equal-eq _ _ previous in
    let e11 = bytes_equal-eq _ _ transition in
    let e12 = tested_eq _ _ updated in
    λ i. record {
      shard_id = e1 i;
      owner_zone_id = e2 i;
      owner_endpoint = e3 i;
      owner_epoch = e4 i;
      route_version = e5 i;
      state = e6 i;
      lease_term = e7 i;
      lease_id = e8 i;
      lease_expires_at = e9 i;
      previous_owner_zone_id = e10 i;
      transition_id = e11 i;
      updated_at = e12 i;
    }

-- Entry by entry, what has changed has a greater route version.
abbrev pub AreNewer : List RouteEntry → List RouteEntry → Type 0
AreNewer [] [] = Unit
AreNewer [] (c ∷ current) = ⊥
AreNewer (p ∷ previous) [] = ⊥
AreNewer (p ∷ previous) (c ∷ current) =
    ((same_entry p c ≡ true) ⊎ (p.route_version < c.route_version)) × AreNewer previous current

entry_at-middle :
    (front : List RouteEntry) (p : RouteEntry) (rest : List RouteEntry)
    → entry_at (front ++ p ∷ rest) (length front) ≡ p
unfolding entry_at
entry_at-middle [] p rest = refl
entry_at-middle (f ∷ front) p rest = entry_at-middle front p rest

set_entry-middle :
    (front : List RouteEntry) (p c : RouteEntry) (rest : List RouteEntry)
    → set_entry (length front) c (front ++ p ∷ rest) ≡ front ++ c ∷ rest
unfolding set_entry
set_entry-middle [] p c rest = refl
set_entry-middle (f ∷ front) p c rest = ap (λ l. f ∷ l) (set_entry-middle front p c rest)

seen_before-below : (id : ℕ) (seen : List ℕ) → All (λ s. s < id) seen → seen_before id seen ≡ false
seen_before-below id [] h = refl
seen_before-below id (other ∷ seen) h = let p = h.0 in ground (arith, seen_before-below id seen h.1)

All-weaken : (m n : ℕ) (seen : List ℕ) → m ≤ n → All (λ s. s < m) seen → All (λ s. s < n) seen
All-weaken m n [] le h = tt
All-weaken m n (s ∷ seen) le h = let p = h.0 in (omega arith, All-weaken m n seen le h.1)

-- What the loop of `applyBatch` makes of the encoded changes.
abbrev pub Applies : (front previous current : List RouteEntry) (seen : List ℕ) → Type 0
Applies front previous current seen =
    (items : List (Option EncodedRoute)) × (last : List ℕ) × (route_protos
        (changed_entries previous current)
      ≡ ok items)
    × (apply_routes items seen (front ++ previous) ≡ ok (front ++ current, last))
    × (length last ≡ length seen + length (changed_entries previous current))

unchanged_head :
    (front previous current : List RouteEntry) (p c : RouteEntry) (seen : List ℕ)
    → same_entry p c ≡ true
    → Applies (front ++ p ∷ []) previous current seen
    → Applies front (p ∷ previous) (c ∷ current) seen
unfolding changed_entries
unchanged_head front previous current p c seen e (items, last, made, applied, size) = (
  items,
  last,
  rw e made,
  rw
      (
        ← same_entry-eq p c e,
        ← append_assoc front (p ∷ []) previous,
        ← append_assoc front (p ∷ []) current,
      )
      applied,
  rw e size,
)

changed_head :
    (front previous current : List RouteEntry) (p c : RouteEntry) (seen : List ℕ)
    → same_entry p c ≡ false
    → length front < shard_count
    → AreCarried (length front) (c ∷ current)
    → p.route_version < c.route_version
    → All (λ s. s < length front) seen
    → Applies (front ++ c ∷ []) previous current (c.shard_id ∷ seen)
    → Applies front (p ∷ previous) (c ∷ current) seen
unfolding changed_entries route_protos apply_routes resync
changed_head front previous current p c seen e small carried newer below
      (items, last, made, applied, size) =
    let (encoded, out, back) = decode_route-route_proto c carried.0 in
    (
      some encoded ∷ items,
      last,
      rw (e, out, made) refl,
      rw (back, small_test, unseen, newer_test, written)
          (applied ∙ ap (λ l. ok (l, last)) (append_assoc front (c ∷ []) current)),
      rw e (omega arith),
    )
  where
    at : c.shard_id ≡ length front
    at = carried.1

    small_test : leb shard_count c.shard_id ≡ false
    small_test = lt→leb_false _ _ (let e = at in omega arith)

    unseen : seen_before c.shard_id seen ≡ false
    unseen = ap (λ id. seen_before id seen) at ∙ seen_before-below (length front) seen below

    lower : (entry_at (front ++ p ∷ previous) c.shard_id).route_version < c.route_version
    lower =
        subst (λ q. q.route_version < c.route_version)
          (sym
            (ap (λ id. entry_at (front ++ p ∷ previous) id) at ∙ entry_at-middle front p previous))
          newer

    newer_test :
        leb c.route_version (entry_at (front ++ p ∷ previous) c.shard_id).route_version ≡ false
    newer_test = lt→leb_false _ _ lower

    written : set_entry c.shard_id c (front ++ p ∷ previous) ≡ (front ++ c ∷ []) ++ previous
    written =
        ap (λ id. set_entry id c (front ++ p ∷ previous)) at
        ∙ set_entry-middle front p c previous
        ∙ sym (append_assoc front (c ∷ []) previous)

-- The front after one more entry.
longer : (front : List RouteEntry) (x : RouteEntry) → length (front ++ x ∷ []) ≡ length front + 1
longer front x = length-append front (x ∷ [])

below_longer :
    (front : List RouteEntry) (x : RouteEntry) (seen : List ℕ)
    → All (λ s. s < length front + 1) seen
    → All (λ s. s < length (front ++ x ∷ [])) seen
below_longer front x seen h = subst (λ n. All (λ s. s < n) seen) (sym (longer front x)) h

newer_of :
    (p c : RouteEntry)
    → same_entry p c ≡ false
    → (same_entry p c ≡ true) ⊎ (p.route_version < c.route_version)
    → p.route_version < c.route_version
newer_of p c e (inl same) = cc
newer_of p c e (inr newer) = newer

pub applies :
    (front previous current : List RouteEntry) (seen : List ℕ)
    → length front + length current ≤ shard_count
    → AreCarried (length front) current
    → AreNewer previous current
    → All (λ s. s < length front) seen
    → Applies front previous current seen
unfolding changed_entries route_protos apply_routes
applies front [] [] seen small carried newer below = ([], seen, refl, refl, omega arith)
applies front [] (c ∷ current) seen small carried newer below = absurd newer
applies front (p ∷ previous) [] seen small carried newer below = absurd newer
applies front (p ∷ previous) (c ∷ current) seen small carried newer below =
    elim (Bool-cases (same_entry p c)) [
      | inl e ↦ unchanged_head front previous current p c seen e (
          applies (front ++ p ∷ []) previous current seen (let e = longer front p in omega arith)
            (rw (longer front p) carried.2) newer.1 (below_longer front p seen later))
      | inr e ↦
          changed_head front previous current p c seen e (omega arith) carried
            (newer_of p c e newer.0) below
            (applies (front ++ c ∷ []) previous current (c.shard_id ∷ seen)
              (let e = longer front c in omega arith) (rw (longer front c) carried.2) newer.1
              (below_longer front c (c.shard_id ∷ seen) (in_front, later)))
    ]
  where
    in_front : c.shard_id < length front + 1
    in_front = let at = carried.1 in omega arith

    later : All (λ s. s < length front + 1) seen
    later = All-weaken (length front) (length front + 1) seen (omega arith) below
