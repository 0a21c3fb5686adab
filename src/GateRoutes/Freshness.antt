-- ===== src/GateRoutes/Freshness.antt =====
-- What the gateway may rely on when it resolves a shard, under any interleaving of the calls that
-- write the table.
use mathlib.Core.Path.{subst}
use supernova_classic_farm.Base.{
  opened, ok_unique, ok_of_err, ℕ, ◌+◌, ◌<◌, ◌≡◌, refl, sym, ap, ◌∙◌, ◌⊎◌, inl, inr, Bool, true,
  false, not, ◌||◌, Option, none, some, List, [], ◌∷◌, Result, ok, err, arith, leb, ◌==◌, length,
  leb_false→lt, Bool-cases, Option-cases,
}
use supernova_classic_farm.Routing.{shard_count, set}
use supernova_classic_farm.GateRoutes.{
  Route, RouteSnapshot, RouteTable, ResolveError, new_route_table, usable, warm_slots, warm,
  usable_slot, get, holds_newer, store, accept_answer, resolve_locked, resolve, holds_version,
  invalidate_if_version,
}

-- Every route stands in the slot of its shard.
abbrev pub IsPlaced : (ℕ → Option Route) → Type 0
IsPlaced slots = (shard : ℕ) (route : Route) → slots shard ≡ some route → route.shard_id ≡ shard

-- One write of the table: a whole snapshot, a call of `Resolve` under its lock, or an
-- invalidation.
pub data Step : RouteTable → RouteTable → Type 0 where
  warmed :
      (before after : RouteTable) (loaded : Result ResolveError RouteSnapshot) (now : ℕ)
      → warm loaded now ≡ ok after
      → Step before after
  resolved :
      (before : RouteTable) (source : ℕ → Result ResolveError Route) (shard now later : ℕ)
      → Step before (resolve_locked source before shard now later).1
  invalidated :
      (before : RouteTable) (shard version : ℕ)
      → Step before (invalidate_if_version before shard version)

pub data Reached : RouteTable → Type 0 where
  start : Reached new_route_table
  next : (before after : RouteTable) → Reached before → Step before after → Reached after

set-IsPlaced :
    (slots : ℕ → Option Route) (route : Route)
    → IsPlaced slots
    → IsPlaced (set slots route.shard_id (some route))
set-IsPlaced slots route h shard other e = elim (Bool-cases (shard == route.shard_id)) [
  | inl same ↦
      (let q = rw same at e in
        let p : shard ≡ route.shard_id = ground arith in
        ap (λ r. r.shard_id) (sym (some_route q)) ∙ sym p)
  | inr apart ↦ h shard other (rw apart at e)
]
  where
    some_route : {a b : Route} → some a ≡ some b → a ≡ b
    some_route h = cc

store-IsPlaced :
    (table : RouteTable) (route : Route) → IsPlaced table.slots → IsPlaced (store table route).slots
unfolding store
store-IsPlaced table route h = elim (Bool-cases (holds_newer (table.slots route.shard_id) route)) [
  | inl newer ↦ rw newer h
  | inr older ↦ rw older (set-IsPlaced table.slots route h)
]

set_index-IsPlaced :
    (slots : ℕ → Option Route) (index : ℕ) (route : Route)
    → route.shard_id ≡ index
    → IsPlaced slots
    → IsPlaced (set slots index (some route))
set_index-IsPlaced slots index route e h =
    subst (λ i. IsPlaced (set slots i (some route))) e (set-IsPlaced slots route h)

guard : (a b : Bool) → (not a || not b) ≡ false → (a ≡ true) × (b ≡ true)
guard true true h = (refl, refl)
guard true false h = cc
guard false b h = cc

same_number : (m n : ℕ) → (m == n) ≡ true → m ≡ n
same_number m n h = ground arith

warm_slots-IsPlaced :
    (now index : ℕ) (routes : List Route) (slots : ℕ → Option Route) {result : ℕ → Option Route}
    → warm_slots now index routes slots ≡ ok result
    → IsPlaced slots
    → IsPlaced result
unfolding warm_slots
warm_slots-IsPlaced now index [] slots h placed =
    subst IsPlaced (ok_unique (ok slots) refl h) placed
warm_slots-IsPlaced now index (route ∷ routes) slots h placed =
    let (passed, h1) = opened (not (route.shard_id == index) || not (usable route now)) _ _ h in
    let (at, _) = guard (route.shard_id == index) (usable route now) passed in
    warm_slots-IsPlaced now (index + 1) routes (set slots index (some route)) h1
      (set_index-IsPlaced slots index route (same_number _ _ at) placed)

warm_result :
    (version : ℕ) (filled : Result ResolveError (ℕ → Option Route)) {after : RouteTable}
    → (elim filled as (λ _. Result ResolveError RouteTable) [
      | err failed ↦ err failed
      | ok slots ↦ ok (record { map_version = version; slots = slots })
    ])
      ≡ ok after
    → filled ≡ ok (after.slots)
warm_result version (err failed) h = cc
warm_result version (ok slots) h = ap (λ t. ok (t.slots)) (ok_unique (ok _) refl h)

warm-IsPlaced :
    (loaded : Result ResolveError RouteSnapshot) (now : ℕ) {after : RouteTable}
    → warm loaded now ≡ ok after
    → IsPlaced after.slots
unfolding warm
warm-IsPlaced (err failed) now h = cc
warm-IsPlaced (ok snapshot) now h =
    let (_, h1) =
      opened (snapshot.map_version == 0 || not (length snapshot.routes == shard_count)) _ _ h in
    warm_slots-IsPlaced now 0 snapshot.routes (λ shard. none)
      (warm_result snapshot.map_version (warm_slots now 0 snapshot.routes (λ shard. none)) h1)
      (λ shard route e. cc)

accept_answer-IsPlaced :
    (answer : Result ResolveError Route) (table : RouteTable) (shard later : ℕ)
    → IsPlaced table.slots
    → IsPlaced (accept_answer answer table shard later).1.slots
unfolding accept_answer
accept_answer-IsPlaced (err failed) table shard later h = h
accept_answer-IsPlaced (ok route) table shard later h =
    elim (Bool-cases (not (route.shard_id == shard) || not (usable route later))) [
      | inl bad ↦ rw bad h
      | inr good ↦ rw good (store-IsPlaced table route h)
    ]

resolve_locked-IsPlaced :
    (source : ℕ → Result ResolveError Route) (table : RouteTable) (shard now later : ℕ)
    → IsPlaced table.slots
    → IsPlaced (resolve_locked source table shard now later).1.slots
unfolding resolve_locked
resolve_locked-IsPlaced source table shard now later h = elim (Option-cases (get table shard now)) [
  | inr (route, e) ↦ rw (resolve_locked, e) h
  | inl e ↦ rw (resolve_locked, e) (accept_answer-IsPlaced (source shard) table shard later h)
]

invalidate-IsPlaced :
    (table : RouteTable) (shard version : ℕ)
    → IsPlaced table.slots
    → IsPlaced (invalidate_if_version table shard version).slots
unfolding invalidate_if_version
invalidate-IsPlaced table shard version h =
    elim (Bool-cases (leb shard_count shard || version == 0)) [
      | inl out ↦ rw out h
      | inr within ↦ elim (Bool-cases (not (holds_version (table.slots shard) version))) [
        | inl other ↦ rw (within, other) h
        | inr held ↦ rw (within, held) (removed)
      ]
    ]
  where
    no_route : {route : Route} → none ≡ some route → ⊥
    no_route h = cc

    removed : IsPlaced (set table.slots shard none)
    removed other route e = elim (Bool-cases (other == shard)) [
      | inl same ↦ absurd (no_route (rw same at e))
      | inr apart ↦ h other route (rw apart at e)
    ]

Step-IsPlaced :
    (before after : RouteTable) → Step before after → IsPlaced before.slots → IsPlaced after.slots
Step-IsPlaced before after (Step.warmed first last loaded now h) placed = warm-IsPlaced loaded now h
Step-IsPlaced before after (Step.resolved first source shard now later) placed =
    resolve_locked-IsPlaced source before shard now later placed
Step-IsPlaced before after (Step.invalidated first shard version) placed =
    invalidate-IsPlaced before shard version placed

Reached-IsPlaced : (table : RouteTable) → Reached table → IsPlaced table.slots
Reached-IsPlaced table Reached.start = λ shard route e. cc
Reached-IsPlaced table (Reached.next before after reached step) =
    Step-IsPlaced before after step (Reached-IsPlaced before reached)

-- What a route that is used for a shard shows.
pub record IsFor (shard time : ℕ) (route : Route) : Type 0 where
  pub at : route.shard_id ≡ shard
  pub is_usable : usable route time ≡ true

usable_slot-some :
    (slot : Option Route) (now : ℕ) {route : Route}
    → usable_slot slot now ≡ some route
    → (slot ≡ some route) × (usable route now ≡ true)
unfolding usable_slot
usable_slot-some none now h = cc
usable_slot-some (some present) now h = elim (Bool-cases (usable present now)) [
  | inl good ↦
      (let e = rw good at h in
        (e, (let same = some_route e in subst (λ r. usable r now ≡ true) same good)))
  | inr bad ↦ absurd (no_route (rw bad at h))
]
  where
    some_route : {a b : Route} → some a ≡ some b → a ≡ b
    some_route h = cc

    no_route : {route : Route} → none ≡ some route → ⊥
    no_route h = cc

get-IsFor :
    (table : RouteTable) (shard now : ℕ) {route : Route}
    → IsPlaced table.slots
    → get table shard now ≡ some route
    → IsFor shard now route
unfolding get
get-IsFor table shard now placed h =
    let (held, good) = usable_slot-some (table.slots shard) now h in
    record { at = placed shard _ held; is_usable = good }

accept_answer-IsFor :
    (answer : Result ResolveError Route) (table : RouteTable) (shard later : ℕ) {route : Route}
    → (accept_answer answer table shard later).0 ≡ ok route
    → IsFor shard later route
unfolding accept_answer
accept_answer-IsFor (err failed) table shard later h = cc
accept_answer-IsFor (ok found) table shard later h =
    elim (Bool-cases (not (found.shard_id == shard) || not (usable found later))) [
      | inl bad ↦ ok_of_err (err ResolveError.not_usable) (rw bad at h) refl
      | inr good ↦
          (let (at, is_usable) = guard (found.shard_id == shard) (usable found later) good in
            subst (IsFor shard later) (ok_unique (ok found) refl (rw good at h))
              (record { at = same_number _ _ at; is_usable = is_usable }))
    ]

resolve_locked-IsFor :
    (source : ℕ → Result ResolveError Route) (table : RouteTable) (shard now later : ℕ)
    {route : Route}
    → IsPlaced table.slots
    → (resolve_locked source table shard now later).0 ≡ ok route
    → IsFor shard now route ⊎ IsFor shard later route
unfolding resolve_locked
resolve_locked-IsFor source table shard now later placed h =
    elim (Option-cases (get table shard now)) [
      | inr (found, e) ↦ inl (
          subst (IsFor shard now) (ok_unique (ok found) refl (rw (resolve_locked, e) at h))
            (get-IsFor table shard now placed e))
      | inl e ↦
          inr (accept_answer-IsFor (source shard) table shard later (rw (resolve_locked, e) at h))
    ]

-- From any table that snapshots, resolutions and invalidations can lead to, in any order and with
-- any answers of the coordinator, a route that the gateway resolves is for the requested shard,
-- which is one of the table, and it is usable at the time of the read or of the answer: it has an
-- owner, an endpoint, versions, and a lease that has not expired.
pub resolve-IsFor :
    (source : ℕ → Result ResolveError Route) (table : RouteTable) (shard now later : ℕ)
    (route : Route)
    → Reached table
    → (resolve source table shard now later).0 ≡ ok route
    → (shard < shard_count) × (IsFor shard now route ⊎ IsFor shard later route)
unfolding resolve
resolve-IsFor source table shard now later route reached h =
    elim (Bool-cases (leb shard_count shard)) [
      | inl out ↦ ok_of_err (err ResolveError.outside_table) (rw out at h) refl
      | inr within ↦ (
        leb_false→lt shard_count shard within,
        elim (Option-cases (get table shard now)) [
          | inr (found, e) ↦ inl (
              subst (IsFor shard now) (ok_unique (ok found) refl (rw (resolve, within, e) at h))
                (get-IsFor table shard now (Reached-IsPlaced table reached) e))
          | inl e ↦
              resolve_locked-IsFor source table shard now later (Reached-IsPlaced table reached)
                (rw (resolve, within, e) at h)
        ],
      )
    ]
