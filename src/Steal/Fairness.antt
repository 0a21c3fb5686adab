-- ===== src/Steal/Fairness.antt =====
-- Steals are bounded: whatever visitors try, the owner of a ripe plot keeps the protected yield
-- (server/internal/player/public_plot_view.go, steal_crop.go and harvest.go).
use supernova_classic_farm.Base.{
  ℕ, ◌+◌, ◌*◌, ◌≤◌, ◌<◌, ◌≡◌, refl, sym, ap, ◌∙◌, Bool, true, false, not, ◌||◌, none, some, List,
  [], ◌∷◌, ◌++◌, arith, ◌==◌, if◌then◌else◌, u32, length, length-append,
}
use supernova_classic_farm.Plot.{Plot}
use supernova_classic_farm.Player.{contains}
use supernova_classic_farm.Command.Harvest.{harvested_quantity}
use supernova_classic_farm.Steal.{can_steal, visitor_already_stole, stolen_plot, steal}

abbrev pub IsDistinct : List ℕ → Type 0
IsDistinct [] = Unit {0}
IsDistinct (x ∷ xs) = (contains x xs ≡ false) × IsDistinct xs

-- The bookkeeping of the steals of a plot.
pub record IsFair (plot : Plot) : Type 0 where
  pub protected : plot.stolen_quantity + plot.protected_owner_yield ≤ plot.base_yield
  pub total : plot.stolen_quantity ≡ plot.steal_count * plot.steal_quantity
  pub times : plot.steal_count ≤ plot.max_steal_times
  pub counted : length plot.steal_visitor_player_ids ≡ plot.steal_count
  pub once : IsDistinct plot.steal_visitor_player_ids
  pub yield_range : plot.base_yield < 4294967296
  pub times_range : plot.max_steal_times < 4294967296

-- Any number of attempts to steal, those that are rejected changing nothing.
pub data Raided : Plot → Plot → Type 0 where
  unharmed : (plot : Plot) → Raided plot plot
  robbed :
      (plot next last : Plot) (visitor_id expected : ℕ)
      → (visitor_id == 0) ≡ false
      → steal plot visitor_id expected ≡ some next
      → Raided next last
      → Raided plot last

contains-append :
    (x v : ℕ) (xs : List ℕ)
    → contains x xs ≡ false
    → (v == x) ≡ false
    → contains x (xs ++ v ∷ []) ≡ false
contains-append x v [] h e = rw e refl
contains-append x v (y ∷ xs) h e = ground (arith, contains-append x v xs)

append-IsDistinct :
    (v : ℕ) (xs : List ℕ) → contains v xs ≡ false → IsDistinct xs → IsDistinct (xs ++ v ∷ [])
append-IsDistinct v [] h d = (refl, tt)
append-IsDistinct v (x ∷ xs) h d =
    (contains-append x v xs d.0 (other x v xs h), append-IsDistinct v xs (later x v xs h) d.1)
  where
    other : (x v : ℕ) (xs : List ℕ) → contains v (x ∷ xs) ≡ false → (v == x) ≡ false
    other x v xs h = ground arith

    later : (x v : ℕ) (xs : List ℕ) → contains v (x ∷ xs) ≡ false → contains v xs ≡ false
    later x v xs h = ground arith

split_test :
    (a b c : Bool) → (not a || (not b || c)) ≡ false → (a ≡ true) × ((b ≡ true) × (c ≡ false))
split_test true true false h = (refl, (refl, refl))
split_test true true true h = cc
split_test true false c h = cc
split_test false b c h = cc

some_if :
    (b : Bool) (plot : Plot) {next : Plot}
    → (if b then none else some plot) ≡ some next
    → (b ≡ false) × (next ≡ plot)
some_if true plot h = cc
some_if false plot h = (refl, cc)

can_steal-room :
    (plot : Plot)
    → can_steal plot ≡ true
    → (plot.steal_count < plot.max_steal_times)
      × (plot.stolen_quantity + plot.steal_quantity + plot.protected_owner_yield ≤ plot.base_yield)
unfolding can_steal
can_steal-room plot h = (ground arith, ground arith)

unseen :
    (plot : Plot) (visitor_id : ℕ)
    → (visitor_id == 0) ≡ false
    → visitor_already_stole plot visitor_id ≡ false
    → contains visitor_id plot.steal_visitor_player_ids ≡ false
unfolding visitor_already_stole
unseen plot visitor_id someone h = (rw someone at h)

-- What a steal has passed.
steal-passed :
    (plot : Plot) (visitor_id expected : ℕ) {next : Plot}
    → (visitor_id == 0) ≡ false
    → steal plot visitor_id expected ≡ some next
    → (next ≡ stolen_plot plot visitor_id)
      × (can_steal plot ≡ true)
      × (contains visitor_id plot.steal_visitor_player_ids ≡ false)
unfolding steal
steal-passed plot visitor_id expected someone h =
    let (passed, same) =
      some_if
        (not (can_steal plot)
          || (not (plot.crop_item_id == expected) || visitor_already_stole plot visitor_id))
        _ h in
    let (can, (_, new)) = split_test _ _ _ passed in (same, can, unseen plot visitor_id someone new)

next_total :
    (stolen count quantity : ℕ)
    → stolen ≡ count * quantity
    → stolen + quantity ≡ (count + 1) * quantity
next_total stolen count quantity h = omega arith

stolen_plot-IsFair :
    (plot : Plot) (visitor_id : ℕ)
    → IsFair plot
    → plot.steal_count < plot.max_steal_times
    → plot.stolen_quantity + plot.steal_quantity + plot.protected_owner_yield ≤ plot.base_yield
    → contains visitor_id plot.steal_visitor_player_ids ≡ false
    → IsFair (stolen_plot plot visitor_id)
unfolding stolen_plot
stolen_plot-IsFair plot visitor_id fair times room new =
    let yield_range = fair.yield_range in
    let times_range = fair.times_range in
    let counted = fair.counted in
    let one : u32 (plot.steal_count + 1) ≡ plot.steal_count + 1 = omega arith in
    let sum : u32 (plot.stolen_quantity + plot.steal_quantity)
        ≡ plot.stolen_quantity + plot.steal_quantity =
      omega arith in
    record {
      protected = omega arith;
      total = sum ∙ next_total _ _ _ (fair.total) ∙ ap (λ n. n * plot.steal_quantity) (sym one);
      times = omega arith;
      counted =
          length-append plot.steal_visitor_player_ids (visitor_id ∷ [])
          ∙ ap (λ n. n + 1) counted
          ∙ sym one;
      once = append-IsDistinct visitor_id plot.steal_visitor_player_ids new fair.once;
      yield_range = yield_range;
      times_range = times_range;
    }

-- Any number of attempts to steal, by visitors with an ID, keeps the bookkeeping of a plot fair:
-- what was stolen is the number of steals times the quantity of one and leaves the protected
-- yield, the number of steals is at most the limit and is that of the visitors, and no visitor is
-- listed twice.
pub Raided-IsFair : (plot last : Plot) → Raided plot last → IsFair plot → IsFair last
Raided-IsFair plot last (unharmed p) fair = fair
Raided-IsFair plot last (robbed p next end visitor_id expected someone h rest) fair =
    let (same, can, new) = steal-passed plot visitor_id expected someone h in
    let (times, room) = can_steal-room plot can in
    Raided-IsFair next last rest (rw same (stolen_plot-IsFair plot visitor_id fair times room new))

Raided-kept :
    (plot last : Plot)
    → Raided plot last
    → (last.base_yield ≡ plot.base_yield)
      × (last.protected_owner_yield ≡ plot.protected_owner_yield)
unfolding stolen_plot
Raided-kept plot last (unharmed p) = (refl, refl)
Raided-kept plot last (robbed p next end visitor_id expected someone h rest) =
    let (same, _, _) = steal-passed plot visitor_id expected someone h in
    let (base, protected) = Raided-kept next last rest in
    (base ∙ ap (λ p. p.base_yield) same, protected ∙ ap (λ p. p.protected_owner_yield) same)

harvested-exact :
    (plot : Plot) → IsFair plot → harvested_quantity plot + plot.stolen_quantity ≡ plot.base_yield
unfolding harvested_quantity
harvested-exact plot fair = let p = fair.protected in let r = fair.yield_range in omega arith

-- However often visitors try to steal from a plot whose bookkeeping is fair, its harvest and what
-- was stolen add up to the yield that it had, without a wrap-around, and the harvest is at least
-- the protected yield.
pub Raided-harvest :
    (plot last : Plot)
    → Raided plot last
    → IsFair plot
    → (harvested_quantity last + last.stolen_quantity ≡ plot.base_yield)
      × (plot.protected_owner_yield ≤ harvested_quantity last)
Raided-harvest plot last raids fair =
    let after = Raided-IsFair plot last raids fair in
    let (base, protected) = Raided-kept plot last raids in
    let exact = harvested-exact last after in
    let bound = after.protected in (exact ∙ base, omega arith)
