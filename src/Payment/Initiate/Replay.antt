-- ===== src/Payment/Initiate/Replay.antt =====
-- About a payment that is started again under a key that is taken.
use last_chance_platform.Prelude.{
  ℕ, ◌≡◌, refl, ◌∙◌, String, Bool, true, false, none, some, List, [], ◌∷◌, any, find?, arith,
}
use last_chance_platform.Prelude.Result.{ok}
use last_chance_platform.Prelude.Action.{pure, or_throw, throw_if, lift}
use last_chance_platform.Domain.Booking.{BookingStatus, same_status, Booking}
use last_chance_platform.Domain.Payment.{PaymentProviderName, Payment}
use last_chance_platform.World.Store.{World}
use last_chance_platform.World.Effects.{Env, select, query, pause}
use last_chance_platform.World.Steps.{>>=-ok}
use last_chance_platform.Booking.Repository.{find_by_id}
use last_chance_platform.Booking.Service.{must_find}
use last_chance_platform.Payment.Provider.{ProviderPort, Providers, get_provider}
use last_chance_platform.Payment.Repository.{insert_payment, find_by_key}
use last_chance_platform.Payment.Initiate.{
  InitiateCommand, hold_is_over, existing_or, create_idempotent, needs_intent, continue_payment,
  key_of, initiate,
}

found-any :
    {A : Type 0}
    → (p : A → Bool) (rows : List A) (x : A) → find? p rows ≡ some x
    → any p rows ≡ true
found-any p [] x h = absurd (ground arith)
found-any p (y ∷ rows) x h = ground (arith, found-any p rows x)

-- A booking that awaits payment under a live hold, at a provider that is registered.
pub record Payable (env : Env) (ps : Providers) (cmd : InitiateCommand) (w : World) : Type 0 where
  pub booking : Booking
  pub port : ProviderPort
  pub found : find_by_id cmd.booking_id w.db ≡ some booking
  pub awaits : same_status booking.status BookingStatus.pending_payment ≡ true
  pub held : hold_is_over (env.now 0) booking.hold_expires_at ≡ false
  pub registered : get_provider ps cmd.provider ≡ ok port

module _ (default_key : ℕ → PaymentProviderName → String) (env : Env) (ps : Providers)
    (alone : env.meanwhile ≡ λ k v. v) where
  pause-alone : (k : ℕ) (w : World) → pause env k w ≡ (ok tt, w)
  unfolding pause
  pause-alone k w = rw alone refl

  not_inserted :
      (cmd : InitiateCommand) (b : Booking) (key : String) (p : Payment) (w : World)
      → find_by_key key w.db ≡ some p
      → query
          (insert_payment env.new_id b.id cmd.provider cmd.method key b.total_amount_minor
            b.currency)
          w
        ≡ (ok none, w)
  unfolding query insert_payment find_by_key
  not_inserted cmd b key p w h = let taken = found-any _ w.db.payments p h in ground arith

  key-taken :
      (cmd : InitiateCommand) (b : Booking) (key : String) (p : Payment) (w : World)
      → find_by_key key w.db ≡ some p
      → create_idempotent env cmd b key w ≡ (ok (p, false), w)
  unfolding create_idempotent existing_or find_by_key select or_throw pure
  key-taken cmd b key p w h =
      >>=-ok _ _ w w none (not_inserted cmd b key p w h)
      ∙ (>>=-ok _ _ w w tt (pause-alone 41 w)
          ∙ (>>=-ok _ _ w w (some p) (rw h refl) ∙ >>=-ok _ _ w w p refl))

  -- When the booking can be paid, no other request runs in between, and the key belongs to a
  -- payment that does not wait for its intent, `initiate` returns that payment, of whatever booking
  -- and status, with nothing for the client to do, and changes nothing.
  pub initiate_replayed :
      (cmd : InitiateCommand) (p : Payment) (w : World)
      → Payable env ps cmd w
      → find_by_key (key_of default_key env ps cmd) w.db ≡ some p
      → needs_intent p false ≡ false
      → initiate default_key env ps cmd w ≡ (ok (p, false), w)
  unfolding initiate must_find select or_throw throw_if lift continue_payment pure
  initiate_replayed cmd p w k taken settled =
      >>=-ok _ _ w w k.booking (>>=-ok _ _ w w (some k.booking) (rw k.found refl))
      ∙ (>>=-ok _ _ w w tt (rw k.awaits refl)
          ∙ (>>=-ok _ _ w w tt (rw k.held refl)
              ∙ (>>=-ok _ _ w w k.port (rw k.registered refl)
                  ∙ (>>=-ok _ _ w w tt (pause-alone 40 w)
                      ∙ (>>=-ok _ _ w w (p, false) (key-taken cmd k.booking _ p w taken)
                          ∙ (>>=-ok _ _ w w tt (pause-alone 42 w) ∙ rw settled refl))))))
