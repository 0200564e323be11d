-- ===== src/Prelude/Action.antt =====
-- An asynchronous method over a state `W`: it ends with a value or throws an `E`, and what it
-- wrote before it threw stays written. To unfold `◌>>=◌` unfolds the other forms too.
use mathlib.Core.Bool.{Bool, true, false}
use mathlib.Core.Option.{Option, none, some}
use last_chance_platform.Prelude.Result.{Result, ok, err}

abbrev pub Action : Type 0 → Type 0 → Type 0 → Type 0
Action W E A = W → Result E A × W

module _ {W E A : Type 0} where
  unfoldable pub pure : A → Action W E A
  pure a w = (ok a, w)

  unfoldable pub throw : E → Action W E A
  throw e w = (err e, w)

  -- `if (!row) throw …`
  unfoldable pub or_throw : Option A → E → Action W E A
  or_throw none e w = (err e, w)
  or_throw (some a) _ w = (ok a, w)

  -- a call that keeps no state of its own
  unfoldable pub lift : Result E A → Action W E A
  lift r w = (r, w)

-- `if (c) throw …`
unfoldable pub throw_if : {W E : Type 0} → Bool → E → Action W E (Unit {0})
throw_if true e w = (err e, w)
throw_if false _ w = (ok tt, w)

module _ {W E A B : Type 0} where
  -- the rest of a block, by how its first step ended
  unfoldable pub continue : Result E A → (A → Action W E B) → Action W E B
  continue (ok a) f w = f a w
  continue (err e) _ w = (err e, w)

  infixl 5 ◌>>=◌ ◌>>◌
  unfoldable pub ◌>>=◌ : Action W E A → (A → Action W E B) → Action W E B
  unfolding continue pure throw or_throw lift throw_if
  ◌>>=◌ m f w = let (r, w') = m w in continue r f w'

  abbrev pub ◌>>◌ : Action W E A → Action W E B → Action W E B
  m >> k = m >>= λ _. k
