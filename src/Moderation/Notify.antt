-- ===== src/Moderation/Notify.antt =====
-- backend/src/modules/notifications/application/host-notifier.service.ts: what a host is told of a
-- decision. The notification port is an argument; the wording of the messages is left out.
use last_chance_platform.Prelude.{
  ℕ, String, Bool, Option, none, some, List, [], ◌∷◌, ◌++◌, find?, is_some, ◌==◌, if◌then◌else◌,
}
use last_chance_platform.Prelude.Result.{Result}
use last_chance_platform.Prelude.Action.{pure, ◌>>=◌, ◌>>◌}
use last_chance_platform.Errors.{Failure}
use last_chance_platform.Domain.Inventory.{Property}
use last_chance_platform.Domain.Auth.{User}
use last_chance_platform.Domain.Moderation.{
  ModerationReasonCode, NotificationChannel, MessageKind, Message,
}
use last_chance_platform.World.Store.{Db}
use last_chance_platform.World.Effects.{M, select, attempt}

pub record HostContact : Type 0 where
  pub host_id : ℕ
  pub phone : Option String
  pub email : Option String

-- Whether the provider accepts a message, or throws.
abbrev pub NotificationPort : Type 0
NotificationPort = Message → Result Failure Bool

-- An unverified number is no address.
unfoldable pub contact_of : User → HostContact
contact_of u = record {
  host_id = u.id;
  phone = if is_some u.phone_verified_at then u.phone else none;
  email = u.email;
}

-- `contactFor`
unfoldable pub contact_for : ℕ → Db → Option HostContact
contact_for id db = elim (find? (λ (p : Property). p.id == id) db.properties) [
  | none ↦ none
  | some p ↦ elim (find? (λ (u : User). u.id == p.host_id) db.users) [
    | none ↦ none
    | some u ↦ some (contact_of u)
  ]
]

unfoldable pub targets_of : HostContact → List (NotificationChannel × Option String)
targets_of c =
    (if is_some c.phone then (NotificationChannel.sms, c.phone) ∷ [] else [])
    ++ (NotificationChannel.email, c.email) ∷ []

module _ (port : NotificationPort) where
  unfoldable pub send : Message → M (Unit {0})
  send m w = elim (port m) [
    | Result.ok _ ↦ (Result.ok tt, record w { messages = m ∷ w.messages })
    | Result.err e ↦ (Result.err e, record w { messages = m ∷ w.messages })
  ]

  -- `fanOut`: a failure to send is logged and no more.
  unfoldable pub fan_out : MessageKind → List (NotificationChannel × Option String) → M (Unit {0})
  fan_out kind [] = pure tt
  fan_out kind ((channel, to) ∷ rest) =
      attempt (send (record { channel = channel; to = to; kind = kind })) >> fan_out kind rest

  unfoldable pub tell : MessageKind → Option HostContact → M (Unit {0})
  tell kind none = pure tt
  tell kind (some c) = fan_out kind (targets_of c)

  unfoldable pub notify_host : ℕ → MessageKind → M (Unit {0})
  notify_host id kind = do contact ← select (contact_for id); tell kind contact

  unfoldable pub notify_approved : ℕ → M (Unit {0})
  notify_approved id = notify_host id (MessageKind.listing_approved id)

  unfoldable pub notify_rejected : ℕ → ModerationReasonCode → M (Unit {0})
  notify_rejected id reason = notify_host id (MessageKind.listing_rejected id reason)

  unfoldable pub notify_suspended : ℕ → ModerationReasonCode → M (Unit {0})
  notify_suspended id reason = notify_host id (MessageKind.listing_suspended id reason)
