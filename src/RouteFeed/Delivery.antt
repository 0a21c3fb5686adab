-- ===== src/RouteFeed/Delivery.antt =====
-- A client under any delivery of the coordinator's batches: lost, repeated and out of order.
use supernova_classic_farm.Base.{
  opened, ℕ, zero, suc, ◌≤◌, ◌<◌, ◌≡◌, refl, sym, ap, ◌∙◌, ◌⊎◌, inl, inr, true, false, not, Option,
  none, some, ok, err, arith, leb, ◌==◌, Bool-cases, Option-cases, ok_unique, >>=-eq-ok, leb→le,
  leb_false→lt,
}
use supernova_classic_farm.Routing.{Snapshot}
use supernova_classic_farm.RouteFeed.Message.{
  RouteBatch, EncodedSnapshot, FeedError, snapshot_proto, decode_snapshot,
}
use supernova_classic_farm.RouteFeed.Cache.{
  Cache, new_route_cache, mark_fresh, apply_snapshot, advance_map, apply_to, apply_batch,
}
use supernova_classic_farm.RouteFeed.RoundTrip.{decode_snapshot-snapshot_proto}
use supernova_classic_farm.RouteFeed.History.{
  IsHistory, Delivered, Holds, apply_availability-snapshot,
}
use supernova_classic_farm.RouteFeed.Applied.{
  moved_on, IsBatch, route_batch-IsBatch, advance_map-route_batch,
}

module _ (n : ℕ) (committed : ℕ → Snapshot) (batch : ℕ → RouteBatch)
    (history : IsHistory n committed batch) where
  published-IsBatch : (i : ℕ) → i < n → IsBatch (committed i) (committed (suc i)) (batch i)
  published-IsBatch i h =
      route_batch-IsBatch (committed i) (committed (suc i)) (batch i) (history.published i h)

  rises : (i j : ℕ) → i < j → j ≤ n → (committed i).map_version < (committed j).map_version
  rises i zero h le = absurd (omega arith)
  rises i (suc j) h le =
      let p = (published-IsBatch j (omega arith)).advanced in
      elim (Bool-cases (i == j)) [
        | inl e ↦ rw (same_index i j e) p
        | inr e ↦ (let q = rises i j (other i j h e) (omega arith) in omega arith)
      ]
    where
      same_index : (a b : ℕ) → (a == b) ≡ true → a ≡ b
      same_index a b e = ground arith

      other : (a b : ℕ) → a < suc b → (a == b) ≡ false → a < b
      other a b h e = ground arith

  never_falls : (i j : ℕ) → i ≤ n → (committed i).map_version < (committed j).map_version → i < j
  never_falls i j le h = elim (Bool-cases (leb j i)) [
    | inr e ↦ leb_false→lt j i e
    | inl e ↦ elim (Bool-cases (j == i)) [
      | inl same ↦ absurd (itself i j same h)
      | inr apart ↦ absurd (let q = rises j i (below j i (leb→le j i e) apart) le in omega arith)
    ]
  ]
    where
      itself :
          (a b : ℕ) → (b == a) ≡ true → (committed a).map_version < (committed b).map_version → ⊥
      itself a b same h =
          (let e : b ≡ a = ground arith in
            let versions = ap (λ k. (committed k).map_version) e in omega arith)

      below : (a b : ℕ) → a ≤ b → (a == b) ≡ false → a < b
      below a b h e = ground arith

  next_index :
      (i j : ℕ)
      → i ≤ n
      → j < n
      → (committed i).map_version < (committed (suc j)).map_version
      → (committed j).map_version ≡ (committed i).map_version
      → i ≡ j
  next_index i j le lt newer same =
      let p = never_falls i (suc j) le newer in
      elim (Bool-cases (i == j)) [
        | inl e ↦ ground arith
        | inr e ↦ absurd (let q = rises i j (ground arith) (omega arith) in omega arith)
      ]

  advance_map-Holds :
      (cache : Cache) (holds : Holds n committed cache) (j : ℕ) {next : Snapshot}
      → j < n
      → advance_map holds.loaded (batch j) ≡ ok next
      → Holds n committed (record cache { snapshot = some next })
  unfolding advance_map
  advance_map-Holds cache holds j lt h =
      let made = published-IsBatch j lt in
      elim (Bool-cases (leb (batch j).map_version holds.loaded.map_version)) [
        | inl old ↦
            (let same = ok_unique (ok holds.loaded) refl (rw old at h) in
              record {
                index = holds.index;
                known = holds.known;
                loaded = holds.loaded;
                in_use = ap (λ s. some s) (sym same);
                version = holds.version;
                entries = holds.entries;
              })
        | inr newer ↦
            (let (at, _) =
                opened (not ((batch j).previous_map_version == holds.loaded.map_version)) _ _
                  (rw newer at h) in
              let joins = at_version _ _ at in
              let from =
                next_index holds.index j holds.known lt
                  (risen _ _ _ _ newer made.ends_at holds.version)
                  (sym made.starts_at ∙ joins ∙ holds.version) in
              let moved =
                advance_map-route_batch (committed j) (committed (suc j)) holds.loaded (batch j)
                  (history.published j lt) (history.whole (suc j) lt).entries_carried
                  (history.newer j lt) (sym joins ∙ made.starts_at)
                  (holds.entries ∙ ap (λ k. (committed k).entries) from) in
              let same = ok_unique _ moved h in
              record {
                index = suc j;
                known = lt;
                loaded = moved_on holds.loaded (committed (suc j));
                in_use = ap (λ s. some s) (sym same);
                version = refl;
                entries = refl;
              })
      ]
    where
      at_version : (a b : ℕ) → not (a == b) ≡ false → a ≡ b
      at_version a b e = ground arith

      risen : (a b c d : ℕ) → leb a b ≡ false → a ≡ c → b ≡ d → d < c
      risen a b c d e p q = ground arith

  apply_to-Holds :
      (cache : Cache) (holds : Holds n committed cache) (table : Option Snapshot) (j : ℕ)
      {next : Cache}
      → table ≡ some holds.loaded
      → j < n
      → apply_to cache table (batch j) ≡ ok next
      → Holds n committed next
  unfolding apply_to
  apply_to-Holds cache holds none j e lt h = cc
  apply_to-Holds cache holds (some current) j e lt h =
      let (after, moved, kept) = >>=-eq-ok (advance_map current (batch j)) _ h in
      rw (← ok_unique (ok (record cache { snapshot = some after })) refl kept) (
        advance_map-Holds cache holds j lt
          (ap (λ s. advance_map s (batch j)) (sym (some_injective e)) ∙ moved))
    where
      some_injective : some current ≡ some holds.loaded → current ≡ holds.loaded
      some_injective e = cc

  apply_batch-Holds :
      (cache : Cache) (holds : Holds n committed cache) (j : ℕ) {next : Cache}
      → j < n
      → apply_batch cache (some (batch j)) ≡ ok next
      → Holds n committed next
  unfolding apply_batch
  apply_batch-Holds cache holds j lt h =
      let (_, h1) = opened (leb (batch j).map_version (batch j).previous_map_version) _ _ h in
      apply_to-Holds cache holds cache.snapshot j holds.in_use lt h1

  -- A client has no map yet, or holds one of the coordinator's.
  abbrev Agrees : Cache → Type 0
  Agrees cache = (cache.snapshot ≡ none) ⊎ Holds n committed cache

  apply_batch-Agrees :
      (cache : Cache) (j : ℕ) {next : Cache}
      → j < n
      → apply_batch cache (some (batch j)) ≡ ok next
      → Agrees cache
      → Agrees next
  unfolding apply_batch apply_to
  apply_batch-Agrees cache j lt h (inr holds) = inr (apply_batch-Holds cache holds j lt h)
  apply_batch-Agrees cache j lt h (inl empty) =
      let (_, h1) = opened (leb (batch j).map_version (batch j).previous_map_version) _ _ h in
      elim (Option-cases cache.snapshot) [
        | inl e ↦ absurd (no_map (rw e at h1))
        | inr (loaded, e) ↦ cc
      ]
    where
      no_map : {result : Cache} → err FeedError.resync_required ≡ ok result → ⊥
      no_map h = cc

  apply_snapshot-Agrees :
      (cache : Cache) (i : ℕ) (encoded : EncodedSnapshot) {next : Cache}
      → i ≤ n
      → snapshot_proto (committed i) ≡ ok encoded
      → apply_snapshot cache (some encoded) ≡ ok next
      → Agrees next
  unfolding apply_snapshot
  apply_snapshot-Agrees cache i encoded le made h =
      let (sent, sends, decodes) =
        decode_snapshot-snapshot_proto (committed i) (history.whole i le) in
      let same = ok_unique _ made sends in
      let (decoded, result, kept) = >>=-eq-ok (decode_snapshot (some encoded)) _ h in
      let loaded = ok_unique _ result (ap (λ m. decode_snapshot (some m)) same ∙ decodes) in
      rw (← ok_unique (ok (record cache { snapshot = some decoded })) refl kept) (
        inr (record {
          index = i;
          known = le;
          loaded = decoded;
          in_use = refl;
          version = ap (λ m. m.map_version) loaded;
          entries = ap (λ m. m.entries) loaded;
        }))

  kept_snapshot : (cache next : Cache) → cache.snapshot ≡ next.snapshot → Agrees cache → Agrees next
  kept_snapshot cache next e (inl empty) = inl (sym e ∙ empty)
  kept_snapshot cache next e (inr holds) = inr (record {
    index = holds.index;
    known = holds.known;
    loaded = holds.loaded;
    in_use = sym e ∙ holds.in_use;
    version = holds.version;
    entries = holds.entries;
  })

  Delivered-Agrees :
      (first last : Cache) → Delivered n committed batch first last → Agrees first → Agrees last
  unfolding mark_fresh
  Delivered-Agrees first last (Delivered.done cache) agrees = agrees
  Delivered-Agrees first last (Delivered.resynchronized cache next end i encoded le made h rest)
        agrees =
      Delivered-Agrees next last rest (apply_snapshot-Agrees first i encoded le made h)
  Delivered-Agrees first last (Delivered.received cache next end j lt h rest) agrees =
      Delivered-Agrees next last rest (apply_batch-Agrees first j lt h agrees)
  Delivered-Agrees first last (Delivered.informed cache next end availability h rest) agrees =
      Delivered-Agrees next last rest
        (kept_snapshot first next (apply_availability-snapshot first availability h) agrees)
  Delivered-Agrees first last (Delivered.refreshed cache end now rest) agrees =
      Delivered-Agrees (mark_fresh first now) last rest
        (kept_snapshot first (mark_fresh first now) refl agrees)

  -- The coordinator commits a series of maps, each well formed, publishes the batch between each
  -- map and the next, and gives every changed route a greater version. A client that starts empty
  -- and takes in whole maps, batches, availability and signs of life without an error, in any
  -- order, with any of them lost or repeated, has no map yet or holds the version and the entries
  -- of one of the committed maps.
  pub Delivered-Holds :
      (ttl : ℕ) (last : Cache)
      → Delivered n committed batch (new_route_cache ttl) last
      → (last.snapshot ≡ none) ⊎ Holds n committed last
  Delivered-Holds ttl last delivered =
      Delivered-Agrees (new_route_cache ttl) last delivered (inl refl)
