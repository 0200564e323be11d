-- ===== src/Booking/Service/History.antt =====
-- Any sequence of calls of the booking service, each with its own surroundings, as the API and the
-- workers make them.
use last_chance_platform.Prelude.{ℕ, String, Option, some, List, [], ◌∷◌, All, ◌≡◌, Bool}
use last_chance_platform.Domain.Booking.{BookingStatus, ActorType}
use last_chance_platform.World.Store.{Db, World}
use last_chance_platform.World.Effects.{Env}
use last_chance_platform.World.Keeps.{Preserves, EnvPreserves}
use last_chance_platform.Booking.Pricing.{PlatformSettings}
use last_chance_platform.Booking.Table.Invariant.{IsValid}
use last_chance_platform.Booking.Repository.Preserves.{Writes, IsValid-Writes}
use last_chance_platform.Booking.Service.{
  FlashDealContext, CreateHoldCommand, create_hold, confirm, cancel, check_in, complete,
  mark_refunded, expire_booking,
}
use last_chance_platform.Booking.Service.Keeps.{
  create_hold-Preserves, confirm-Preserves, cancel-Preserves, simple_transition-Preserves,
  complete-Preserves, expire_booking-Preserves,
}
use last_chance_platform.Booking.Sweep.{sweep_stale_holds}
use last_chance_platform.Booking.Sweep.Keeps.{sweep_stale_holds-Preserves}

-- A request or a job, and what it brings.
pub data Call : Type 0 where
  hold : PlatformSettings → CreateHoldCommand → Call
  confirm_booking check_in_booking complete_booking refund_booking : ℕ → Call
  cancel_booking : ℕ → ActorType → Option String → Call
  expire_job : ℕ → Call
  -- the sweep, and the rows that others have locked
  sweep_job : (ℕ → Bool) → Call

-- The world after a call, whether it returned or threw.
unfoldable pub run_call : Env → Call → World → World
run_call env (hold settings cmd) w = (create_hold env settings cmd w).1
run_call env (confirm_booking id) w = (confirm env id w).1
run_call env (cancel_booking id by reason) w = (cancel env id by reason w).1
run_call env (check_in_booking id) w = (check_in env id w).1
run_call env (complete_booking id) w = (complete env id w).1
run_call env (refund_booking id) w = (mark_refunded env id w).1
run_call env (expire_job id) w = (expire_booking env id w).1
run_call env (sweep_job locked) w = (sweep_stale_holds env.db_now locked w).1

unfoldable pub run_calls : List (Env × Call) → World → World
run_calls [] w = w
run_calls ((env, c) ∷ rest) w = run_calls rest (run_call env c w)

-- What a call's surroundings, and the claim of its flash deal, may not break.
abbrev pub CallKeeps : (Db → Type 0) → Env × Call → Type 0
CallKeeps P (env, hold settings cmd) =
    EnvPreserves P env
    × ((ctx : FlashDealContext) → cmd.flash_deal ≡ some ctx → Preserves P ctx.claim)
CallKeeps P (env, _) = EnvPreserves P env

module _ {P : Db → Type 0} (writes : Writes P) where
  run_call-keeps :
      (env : Env) (c : Call) (w : World) → CallKeeps P (env, c) → P w.db → P (run_call env c w).db
  unfolding run_call check_in mark_refunded
  run_call-keeps env (hold settings cmd) w k =
      (create_hold-Preserves writes env k.0 settings cmd k.1).after w
  run_call-keeps env (confirm_booking id) w k = (confirm-Preserves writes env k id).after w
  run_call-keeps env (cancel_booking id by reason) w k =
      (cancel-Preserves writes env k id by reason).after w
  run_call-keeps env (check_in_booking id) w k =
      (simple_transition-Preserves writes env k id BookingStatus.checked_in).after w
  run_call-keeps env (complete_booking id) w k = (complete-Preserves writes env k id).after w
  run_call-keeps env (refund_booking id) w k =
      (simple_transition-Preserves writes env k id BookingStatus.refunded).after w
  run_call-keeps env (expire_job id) w k = (expire_booking-Preserves writes env k id).after w
  run_call-keeps env (sweep_job locked) w k =
      (sweep_stale_holds-Preserves writes env.db_now locked).after w

  pub run_calls-keeps :
      (calls : List (Env × Call)) (w : World)
      → All (CallKeeps P) calls
      → P w.db
      → P (run_calls calls w).db
  unfolding run_calls
  run_calls-keeps [] w k h = h
  run_calls-keeps ((env, c) ∷ rest) w k h =
      run_calls-keeps rest (run_call env c w) k.1 (run_call-keeps env c w k.0 h)

-- From a table that satisfies its constraints, any sequence of calls of the booking service (holds
-- with or without a flash deal, confirmations, cancellations, check-ins, completions, refunds,
-- expiry jobs, sweeps of lapsed holds), each returning or throwing, leaves such a table, provided
-- that whatever runs at the calls' awaits, and the claims of the deals, do.
pub run_calls-IsValid :
    (calls : List (Env × Call)) (w : World)
    → All (CallKeeps IsValid) calls
    → IsValid w.db
    → IsValid (run_calls calls w).db
run_calls-IsValid = run_calls-keeps IsValid-Writes
