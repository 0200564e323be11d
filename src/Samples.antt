-- ===== src/Samples.antt =====
-- Sample rows, worlds and processes for the tests.
use last_chance_platform.Prelude.{ℕ, ◌+◌, true, false, none, some, List, [], ◌∷◌}
use last_chance_platform.Prelude.Result.{ok}
use last_chance_platform.Domain.Booking.{BookingStatus, BookingType, BookingSource, Booking}
use last_chance_platform.Domain.Payment.{PaymentProviderName, PaymentMethod, PaymentStatus, Payment}
use last_chance_platform.Booking.Pricing.{PlatformSettings}
use last_chance_platform.World.Store.{Db, World}
use last_chance_platform.World.Effects.{answered, Env}
use last_chance_platform.Payment.Provider.{
  ProviderPort, Providers, mock_parse_event, stripe_parse_event,
}

-- A stay of one night at 10000, of which the host gets 8500; its hold runs out at 2000.
abbrev pub night : ℕ → BookingStatus → ℕ → Booking
night id status from = record {
  id = id;
  guest_id = 50;
  unit_id = 7;
  property_id = 3;
  booking_type = BookingType.nightly;
  status = status;
  source = BookingSource.web;
  check_in_utc = from;
  check_out_utc = from + 86400000;
  turnaround_minutes = 60;
  guests_count = 2;
  hold_expires_at = some 2000;
  currency = "SAR";
  base_amount_minor = 10000;
  cleaning_fee_minor = 500;
  service_fee_minor = 800;
  taxes_minor = 1200;
  discount_minor = 0;
  total_amount_minor = 12500;
  commission_pct = 1500;
  commission_minor = 1500;
  host_payout_minor = 8500;
  flash_deal_id = none;
  cancelled_at = none;
  cancelled_by = none;
  cancellation_reason = none;
}

-- A held stay, and a confirmed one after it.
abbrev pub held_night : Booking
held_night = night 1 BookingStatus.pending_payment 100000

abbrev pub next_night : Booking
next_night = night 2 BookingStatus.confirmed 100000000

abbrev pub one_payment : Payment
one_payment = record {
  id = 40;
  booking_id = 1;
  provider = PaymentProviderName.mock;
  method = PaymentMethod.mada;
  status = PaymentStatus.requires_action;
  idempotency_key = "init-1";
  provider_payment_id = some "mock_pi_1";
  amount_minor = 12500;
  currency = "SAR";
  refunded_amount_minor = 0;
  captured_at = none;
  failure_code = none;
  failure_message = none;
}

abbrev pub tables : List Booking → List Payment → Db
tables rows payments = record {
  bookings = rows;
  units = [];
  properties = [];
  hosts = [];
  blocks = [];
  payments = payments;
  refunds = [];
  payouts = [];
  webhook_events = [];
  ledger = [];
  deals = [];
  users = [];
  documents = [];
  moderation_events = [];
}

abbrev pub world_of : Db → World
world_of db = record {
  db = db;
  jobs = [];
  events = [];
  locks = [];
  fences = λ _. 0;
  redis = λ _. none;
  messages = [];
}

-- The two stays, one of them still to be paid.
abbrev pub two_nights : World
two_nights = world_of (tables (held_night ∷ next_night ∷ []) (one_payment ∷ []))

-- A process alone in the world, at the instant 1000.
abbrev pub alone : Env
alone = record {
  now = λ k. 1000 + k;
  redis_now = λ k. 1000 + k;
  db_now = 1000;
  new_id = 90;
  new_group = 91;
  lock_token = 11;
  set_reply = λ _. answered;
  incr_reply = λ _. answered;
  release_reply = answered;
  queue_up = true;
  meanwhile = λ _ w. w;
}

abbrev pub mock_port : ProviderPort
mock_port = record {
  name = PaymentProviderName.mock;
  verify_signature = λ _ _. true;
  parse_event = mock_parse_event;
  create_intent = λ _ _ _. ok "mock_pi_9";
  create_refund = λ _ _ _. ok "mock_re_9";
  create_transfer = λ _ _. ok "mock_tr_9";
}

abbrev pub stripe_port : ProviderPort
stripe_port = record {
  name = PaymentProviderName.stripe;
  verify_signature = λ _ _. true;
  parse_event = stripe_parse_event;
  create_intent = λ _ _ _. ok "pi_9";
  create_refund = λ _ _ _. ok "re_9";
  create_transfer = λ _ _. ok "tr_9";
}

abbrev pub providers : Providers
providers = record {
  is_production = false;
  stripe_enabled = true;
  mock = mock_port;
  stripe = stripe_port;
}

abbrev pub settings : PlatformSettings
settings = record {
  hold_minutes = 10;
  default_commission_pct = 1500;
  max_hourly_booking_hours = 12;
}
