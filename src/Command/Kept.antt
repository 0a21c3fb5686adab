-- ===== src/Command/Kept.antt =====
-- The steps by which a body that is rejected leaves the state as it was: each check of the commands of
-- server/internal/player, and a plot that is put back in the map.
use supernova_classic_farm.Base.{
  ℕ, ◌≡◌, refl, ap, ◌∙◌, sym, inl, inr, Bool, true, false, Option, none, some, [], ◌∷◌, Result, ok,
  err, arith, ◌>>=◌, ◌>>◌, ◌==◌, Bool-cases,
}
use supernova_classic_farm.Base.Map.{Map, lookup, insert}
use supernova_classic_farm.Plot.{Plot}
use supernova_classic_farm.Growth.{GrowthError}
use supernova_classic_farm.Wire.{Failure}
use supernova_classic_farm.Player.{State}
use supernova_classic_farm.Idempotency.Replay.{Leaves}
use supernova_classic_farm.Command.{reject_if, require, otherwise}
use supernova_classic_farm.Command.ApplyFertilizer.{still_growing, write_plot}

same_number : (a b : ℕ) → (a == b) ≡ true → a ≡ b
same_number a b h = ground arith

itself : (n : ℕ) → (n == n) ≡ true
itself n = ground arith

module _ {V : Type 0} (key : ℕ) (value other : V) where
  -- The later of two writes counts.
  insert_twice :
      (entries : Map V) → insert key value (insert key other entries) ≡ insert key value entries
  unfolding insert
  insert_twice [] = rw (itself key) refl
  insert_twice ((k, v) ∷ entries) = elim (Bool-cases (k == key)) [
    | inl e ↦ rw (e, insert) (rw (itself key) refl)
    | inr e ↦ rw (e, insert) (rw e (ap (λ rest. (k, v) ∷ rest) (insert_twice entries)))
  ]

  -- Writing what was there changes nothing.
  insert_same :
      (entries : Map V) → lookup key entries ≡ some value → insert key value entries ≡ entries
  unfolding lookup insert
  insert_same [] h = cc
  insert_same ((k, v) ∷ entries) h = elim (Bool-cases (k == key)) [
    | inl e ↦
        (let held : some v ≡ some value = (rw (lookup, e) at h) in
          let same : v ≡ value = cc in
          rw (e, insert)
            (ap (λ n. (n, value) ∷ entries) (sym (same_number k key e))
              ∙ ap (λ w. (k, w) ∷ entries) (sym same)))
    | inr e ↦
        rw (e, insert) (ap (λ rest. (k, v) ∷ rest) (insert_same entries (rw (lookup, e) at h)))
  ]

module _ {B : Type 0} (state : State B) (plot_id : ℕ) (plot : Plot)
    (found : lookup plot_id state.plots ≡ some plot) where
  pub put_back : (other : Plot) → write_plot (write_plot state plot_id other) plot_id plot ≡ state
  unfolding write_plot
  put_back other =
      ap {A = Map Plot} {B = State B} (λ plots. record state { plots = plots })
        (insert_twice plot_id plot other state.plots
          ∙ insert_same plot_id plot other state.plots found)

  pub put_back_twice :
      (first second : Plot)
      → write_plot (write_plot (write_plot state plot_id first) plot_id second) plot_id plot ≡ state
  unfolding write_plot
  put_back_twice first second =
      ap {A = Map Plot} {B = State B} (λ plots. record state { plots = plots })
        (ap (insert plot_id plot) (insert_twice plot_id second first state.plots)
          ∙ insert_twice plot_id plot second state.plots
          ∙ insert_same plot_id plot second state.plots found)

module _ {B : Type 0} (state : State B) where
  pub kept_at :
      {A : Type 0} (left : State B) (failure : Failure)
      → left ≡ state
      → Leaves {A = A} state (err (left, failure))
  kept_at left failure same = record {
    left_alone = λ other other_failure h. (let e : left ≡ other = cc in sym e ∙ same);
  }

  pub kept_ok : {A : Type 0} (a : A) → Leaves state (ok a)
  kept_ok a = record { left_alone = λ left failure h. cc }

  pub kept_check :
      {A : Type 0} (b : Bool) (failure : Failure) (rest : Result (State B × Failure) A)
      → Leaves state rest
      → Leaves state (reject_if state b failure >> rest)
  kept_check true failure rest h = kept_at state failure refl
  kept_check false failure rest h = h

  pub kept_found :
      {A C : Type 0} (o : Option A) (failure : Failure) (rest : A → Result (State B × Failure) C)
      → ((a : A) → o ≡ some a → Leaves state (rest a))
      → Leaves state (require state o failure >>= rest)
  kept_found none failure rest h = kept_at state failure refl
  kept_found (some a) failure rest h = h a refl

  pub kept_worked_out :
      {E A C : Type 0} (left : State B) (r : Result E A) (failure : Failure)
      (rest : A → Result (State B × Failure) C)
      → left ≡ state
      → ((a : A) → Leaves state (rest a))
      → Leaves state (otherwise left r failure >>= rest)
  kept_worked_out left (err e) failure rest same h = kept_at left failure same
  kept_worked_out left (ok a) failure rest same h = h a

  pub kept_settled :
      {C : Type 0} (left : State B) (r : Plot × Result GrowthError Bool) (failure : Failure)
      (rest : Plot → Result (State B × Failure) C)
      → left ≡ state
      → ((a : Plot) → Leaves state (rest a))
      → Leaves state (still_growing left r failure >>= rest)
  kept_settled left (settled, err e) failure rest same h = kept_at left failure same
  kept_settled left (settled, ok true) failure rest same h = kept_at left failure same
  kept_settled left (settled, ok false) failure rest same h = h settled

  pub kept_done :
      {A C : Type 0} (r : Result (State B × Failure) A) (rest : A → Result (State B × Failure) C)
      → Leaves state r
      → ((a : A) → Leaves state (rest a))
      → Leaves state (r >>= rest)
  kept_done (err (left, failure)) rest same h =
      kept_at left failure (same.left_alone left failure refl)
  kept_done (ok a) rest same h = h a
