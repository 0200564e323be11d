-- ===== src/Booking/Sweep/Keeps.antt =====
-- About the writes of the sweep (`fn_expire_stale_holds` of db/migrations/0006_bookings.sql): they
-- are updates of single rows.
use mathlib.Core.Path.{subst}
use last_chance_platform.Prelude.{ℕ, refl, ap, Bool, true, List, [], ◌∷◌}
use last_chance_platform.Prelude.Result.{ok-injective, >>=-eq-ok}
use last_chance_platform.World.Store.{Db}
use last_chance_platform.World.Keeps.{Preserves, StatementPreserves, Preserves-query}
use last_chance_platform.Booking.Repository.Preserves.{Writes}
use last_chance_platform.Booking.Sweep.{
  expire, expire_each, to_expire, fn_expire_stale_holds, sweep_stale_holds,
}

module _ {P : Db → Type 0} (writes : Writes P) where
  expire_each-preserves : (ids : List ℕ) → StatementPreserves P (expire_each ids)
  unfolding expire_each
  expire_each-preserves [] = record { after = λ d e h. subst P (ap (λ r. r.1) (ok-injective e)) h }
  expire_each-preserves (id ∷ ids) = record {
    after = λ d e h.
        let (one, first, more) = >>=-eq-ok _ _ e in
        let (rest, then_rest, end) = >>=-eq-ok _ _ more in
        let h1 = (writes.updates id (λ _. true) expire (λ b. refl)).after d first h in
        subst P (ap (λ r. r.1) (ok-injective end))
          ((expire_each-preserves ids).after one.1 then_rest h1);
  }

  pub sweep_stale_holds-Preserves :
      (now : ℕ) (locked : ℕ → Bool) → Preserves P (sweep_stale_holds now locked)
  unfolding sweep_stale_holds fn_expire_stale_holds
  sweep_stale_holds-Preserves now locked = Preserves-query _ (record {
    after = λ d. (expire_each-preserves (to_expire now locked 500 d.bookings)).after d;
  })
