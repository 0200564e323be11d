-- ===== src/World/Steps.antt =====
-- About the forms of a method: where a run of a block has got to after its first step.
use last_chance_platform.Prelude.{◌≡◌, refl, true, arith}
use last_chance_platform.Prelude.Result.{ok, err}
use last_chance_platform.Prelude.Action.{◌>>=◌}
use last_chance_platform.Errors.{Failure}
use last_chance_platform.World.Store.{World}
use last_chance_platform.World.Effects.{M, recover}
use last_chance_platform.World.Redis.{Redis, command}

module _ {A B : Type 0} where
  pub >>=-ok :
      (m : M A) (f : A → M B) (w w' : World) (a : A) → m w ≡ (ok a, w') → (m >>= f) w ≡ f a w'
  unfolding ◌>>=◌
  >>=-ok m f w w' a h = rw (h, ◌>>=◌) refl

  pub >>=-err :
      (m : M A) (f : A → M B) (w w' : World) (e : Failure)
      → m w ≡ (err e, w')
      → (m >>= f) w ≡ (err e, w')
  unfolding ◌>>=◌
  >>=-err m f w w' e h = rw (h, ◌>>=◌) refl

module _ {A : Type 0} where
  pub recover-ok :
      (m : M A) (handler : Failure → M A) (w w' : World) (a : A)
      → m w ≡ (ok a, w')
      → recover m handler w ≡ (ok a, w')
  unfolding recover
  recover-ok m handler w w' a h = ground arith

  pub recover-err :
      (m : M A) (handler : Failure → M A) (w w' : World) (e : Failure)
      → m w ≡ (err e, w')
      → recover m handler w ≡ handler e w'
  unfolding recover
  recover-err m handler w w' e h = ground arith

  pub command-answers :
      (f : Redis → A × Redis) (w : World)
      → command true f w ≡ (ok (f w.redis).0, record w { redis = (f w.redis).1 })
  unfolding command
  command-answers f w = refl
