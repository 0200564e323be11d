-- ===== src/Prelude/Result.antt =====
-- A function that returns or throws, with no state.
use mathlib.Core.Path.{◌≡◌, refl}
use mathlib.Core.Logic.{◌⊎◌, inl, inr}
use mathlib.Core.Bool.{Bool, true, false}

pub data Result (E : Type 0) (A : Type 0) : Type 0 where
  ok : A → Result E A
  err : E → Result E A

module _ {E : Type 0} where
  abbrev pub fail_if : Bool → E → Result E (Unit {0})
  fail_if true e = err e
  fail_if false _ = ok tt

module _ {E A B : Type 0} where
  infixl 5 ◌>>=◌ ◌>>◌
  abbrev pub ◌>>=◌ : Result E A → (A → Result E B) → Result E B
  ◌>>=◌ (err thrown) rest = err thrown
  ◌>>=◌ (ok value) rest = rest value

  abbrev pub ◌>>◌ : Result E A → Result E B → Result E B
  first >> second = first >>= λ _. second

  -- What a block that returned went through.
  pub >>=-eq-ok :
      (first : Result E A) (rest : A → Result E B) {end : B}
      → (first >>= rest) ≡ ok end
      → (value : A) × (first ≡ ok value) × (rest value ≡ ok end)
  >>=-eq-ok (err thrown) rest returned = cc
  >>=-eq-ok (ok value) rest returned = (value, refl, returned)

pub fail_if-eq-ok :
    {E B : Type 0} (c : Bool) (e : E) (k : Result E B) {b : B}
    → (fail_if c e >> k) ≡ ok b
    → (c ≡ false) × (k ≡ ok b)
fail_if-eq-ok true e k h = cc
fail_if-eq-ok false e k h = (refl, h)

-- The call returned a value.
abbrev pub Returns : {E A : Type 0} → Result E A → Type 0
Returns (ok _) = Unit
Returns (err _) = ⊥

pub Returns-value : {E A : Type 0} (r : Result E A) → Returns r → (a : A) × (r ≡ ok a)
Returns-value (ok a) h = (a, refl)
Returns-value (err e) h = absurd h

pub Returns-of_eq : {E A : Type 0} (r : Result E A) (a : A) → r ≡ ok a → Returns r
Returns-of_eq (ok b) a h = tt
Returns-of_eq (err e) a h = cc

pub ok-injective : {E A : Type 0} {a b : A} → ◌≡◌ {A = Result E A} (ok a) (ok b) → a ≡ b
ok-injective h = cc

pub Result-cases :
    {E A : Type 0} (r : Result E A) → ((a : A) × (r ≡ ok a)) ⊎ ((e : E) × (r ≡ err e))
Result-cases (err thrown) = inr (thrown, refl)
Result-cases (ok value) = inl (value, refl)
