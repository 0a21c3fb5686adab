-- ===== src/Base/Outcome.antt =====
-- Go's pair of a value and an error, as a value or an error, with `do` blocks for early returns.
use mathlib.Core.Path.{◌≡◌, refl}
use mathlib.Core.Logic.{◌⊎◌, inl, inr}
use mathlib.Core.Bool.{Bool, true, false}
use supernova_classic_farm.Base.Tests.{if◌then◌else◌}

pub data Result {ℓ κ} (E : Type κ) (A : Type ℓ) : Type (ℓ ⊔ κ) where
  ok : A → Result E A
  err : E → Result E A

-- The rest of the body, unless an error has been returned.
abbrev pub ◌>>=◌ {ℓ κ μ} :
    {E : Type κ} {A : Type ℓ} {B : Type μ} → Result E A → (A → Result E B) → Result E B
err failed >>= rest = err failed
ok value >>= rest = rest value

-- The same after a check that yields nothing.
abbrev pub ◌>>◌ {ℓ κ} : {E : Type κ} {B : Type ℓ} → Result E (Unit {0}) → Result E B → Result E B
check >> rest = check >>= λ _. rest

infixl 5 ◌>>=◌ ◌>>◌
pub >>=-assoc {ℓ κ μ ν} :
    {E : Type κ} {A : Type ℓ} {B : Type μ} {C : Type ν} (m : Result E A) (f : A → Result E B)
    (g : B → Result E C)
    → (m >>= f >>= g) ≡ (m >>= λ a. f a >>= g)
>>=-assoc (ok a) f g = refl
>>=-assoc (err e) f g = refl

-- A chain that succeeds did so at each step.
pub >>=-eq-ok {ℓ κ} :
    {E : Type κ} {A B : Type ℓ} (call : Result E A) (rest : A → Result E B) {result : B}
    → (call >>= rest) ≡ ok result
    → (value : A) × (call ≡ ok value) × (rest value ≡ ok result)
>>=-eq-ok (err failed) rest h = cc
>>=-eq-ok (ok value) rest h = (value, refl, h)

pub Result-cases {ℓ κ} :
    {E : Type κ} {A : Type ℓ} (r : Result E A) → ((a : A) × (r ≡ ok a)) ⊎ ((e : E) × (r ≡ err e))
Result-cases (ok a) = inl (a, refl)
Result-cases (err e) = inr (e, refl)

-- A call has one value.
pub ok_unique {ℓ κ} :
    {E : Type κ} {A : Type ℓ} (r : Result E A) {a b : A} → r ≡ ok a → r ≡ ok b → a ≡ b
ok_unique (ok x) p q = cc
ok_unique (err e) p q = cc

pub ok_of_err {ℓ κ μ} :
    {E : Type κ} {A : Type ℓ} {B : Type μ} (r : Result E A) {a : A} {e : E}
    → r ≡ ok a
    → r ≡ err e
    → B
ok_of_err (ok x) p q = cc
ok_of_err (err e) p q = cc

-- A body that goes on after a guard.
pub opened {ℓ κ} :
    {E : Type κ} {A : Type ℓ} (b : Bool) (e : E) (rest : Result E A) {a : A}
    → (if b then err e else rest) ≡ ok a
    → (b ≡ false) × (rest ≡ ok a)
opened true e rest h = cc
opened false e rest h = (refl, h)
