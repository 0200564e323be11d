-- ===== src/Payment/Payout/Split.antt =====
-- About the split of a booking's money in the payout job of backend/src/modules/payment,
-- and the checks of `bookings` it relies on.
use last_chance_platform.Prelude.{ℕ, ◌≡◌, true, arith}
use last_chance_platform.Prelude.Result.{ok}
use last_chance_platform.Prelude.Action.{◌>>=◌}
use last_chance_platform.Domain.Booking.{Booking}
use last_chance_platform.Domain.Payment.{LedgerDirection}
use last_chance_platform.World.Store.{World}
use last_chance_platform.World.Effects.{exec}
use last_chance_platform.Booking.Table.{row_checks}
use last_chance_platform.Payment.Ledger.{leg_total, insert_legs, post_group}
use last_chance_platform.Payment.Payout.{split_legs}

split_legs-even :
    (b : Booking) (payment_id payout_id host_id : ℕ)
    → row_checks b ≡ true
    → leg_total LedgerDirection.debit (split_legs b payment_id payout_id host_id)
      ≡ leg_total LedgerDirection.credit (split_legs b payment_id payout_id host_id)
unfolding row_checks leg_total split_legs
split_legs-even b payment_id payout_id host_id h = ground arith

-- For a booking whose row passes the checks of `bookings`, the four legs of its split are never
-- refused: the ledger accepts them, and only the ledger changes.
pub split_legs_post :
    (b : Booking) (group payment_id payout_id host_id : ℕ) (w : World)
    → row_checks b ≡ true
    → post_group group b.currency (split_legs b payment_id payout_id host_id) w ≡ (
      ok tt,
      record w {
        db = record w.db {
          ledger =
              insert_legs group b.currency (split_legs b payment_id payout_id host_id) w.db.ledger;
        };
      },
    )
unfolding post_group ◌>>=◌ exec split_legs
split_legs_post b group payment_id payout_id host_id w h =
    ground (arith, split_legs-even b payment_id payout_id host_id h)
