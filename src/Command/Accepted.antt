-- ===== src/Command/Accepted.antt =====
-- The chain of checks at the head of every command of server/internal/player: a command that is
-- accepted has passed each of them.
use supernova_classic_farm.Base.{
  ◌≡◌, refl, Bool, true, false, not, Option, none, some, Result, ok, err, ◌>>=◌, ◌>>◌,
}
use supernova_classic_farm.Wire.{Failure}
use supernova_classic_farm.Command.{reject_if, require, otherwise}

pub passed_check :
    {S A : Type 0} (state : S) (b : Bool) (failure : Failure) (rest : Result (S × Failure) A)
    {a : A}
    → (reject_if state b failure >> rest) ≡ ok a
    → (b ≡ false) × (rest ≡ ok a)
passed_check state true failure rest h = cc
passed_check state false failure rest h = (refl, h)

pub found_value :
    {S A C : Type 0} (state : S) (o : Option A) (failure : Failure)
    (rest : A → Result (S × Failure) C) {c : C}
    → (require state o failure >>= rest) ≡ ok c
    → (a : A) × (o ≡ some a) × (rest a ≡ ok c)
found_value state none failure rest h = cc
found_value state (some a) failure rest h = (a, refl, h)

pub worked_out :
    {S E A C : Type 0} (state : S) (r : Result E A) (failure : Failure)
    (rest : A → Result (S × Failure) C) {c : C}
    → (otherwise state r failure >>= rest) ≡ ok c
    → (a : A) × (r ≡ ok a) × (rest a ≡ ok c)
worked_out state (err e) failure rest h = cc
worked_out state (ok a) failure rest h = (a, refl, h)

-- What an accepted command returns.
pub accepted :
    {E A C : Type 0} (r : Result E (A × C)) {a a2 : A} {c c2 : C}
    → r ≡ ok (a, c)
    → r ≡ ok (a2, c2)
    → (a2 ≡ a) × (c2 ≡ c)
accepted r p q = (cc, cc)

pub not-false : (b : Bool) → not b ≡ false → b ≡ true
not-false true h = refl
not-false false h = cc
