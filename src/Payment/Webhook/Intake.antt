-- ===== src/Payment/Webhook/Intake.antt =====
-- About the intake of events (`WebhookService.intake` of backend/src/modules/payment): the inbox
-- and its unique key, the signature and the answer.
use last_chance_platform.Prelude.{
  ℕ, ◌≡◌, refl, sym, ap, ◌∙◌, String, Bool, true, false, Option, none, some, any, arith,
  if◌then◌else◌, same_text_refl, inl, inr,
}
use last_chance_platform.Prelude.Result.{ok, Result-cases}
use last_chance_platform.Prelude.Action.{◌>>=◌}
use last_chance_platform.Domain.Payment.{
  PaymentProviderName, same_provider, WebhookStatus, Payload, WebhookEventRecord,
}
use last_chance_platform.World.Store.{Db, World}
use last_chance_platform.World.Effects.{Env, query, add_job}
use last_chance_platform.Payment.Inbox.{same_event, record_event}
use last_chance_platform.Payment.Provider.{ProviderPort, Providers, get_provider}
use last_chance_platform.Payment.Webhook.{WebhookIntakeResult, answer_intake, intake}

abbrev pub is_recorded : PaymentProviderName → String → World → Bool
is_recorded name event_id w = any (same_event name event_id) w.db.webhook_events

-- When the inbox already has an event of the provider with the id that the body gives, `intake`
-- changes nothing, and answers that the event was accepted and is a duplicate if its signature is
-- valid, and neither otherwise.
pub intake_redelivered :
    (env : Env) (ps : Providers) (fresh : String) (name : PaymentProviderName)
    (raw headers : String) (payload : Payload) (w : World) (port : ProviderPort)
    → get_provider ps name ≡ ok port
    → is_recorded name (port.parse_event fresh payload).event_id w ≡ true
    → intake env ps fresh name raw headers payload w ≡ (
      ok (record {
        accepted = port.verify_signature raw headers;
        duplicate = port.verify_signature raw headers;
      }),
      w,
    )
unfolding intake ◌>>=◌ query record_event
intake_redelivered env ps fresh name raw headers payload w port found recorded = ground arith

same_provider_refl : (p : PaymentProviderName) → same_provider p p ≡ true
same_provider_refl p = ground arith

record_event-is_recorded :
    (id : ℕ) (name : PaymentProviderName) (event_id : String) (payload : Payload) (valid : Bool)
    (status : WebhookStatus) (d d' : Db) (o : Option WebhookEventRecord)
    → record_event id name event_id payload valid status d ≡ ok (o, d')
    → any (same_event name event_id) d'.webhook_events ≡ true
unfolding record_event
record_event-is_recorded id name event_id payload valid status d d' o h =
    ground (arith, same_text_refl event_id, same_provider_refl name)

answer_intake-db :
    (env : Env) (valid : Bool) (o : Option WebhookEventRecord) (w : World)
    → (answer_intake env valid o w).1.db ≡ w.db
unfolding ◌>>=◌ add_job
answer_intake-db env false o w = refl
answer_intake-db env true none w = refl
answer_intake-db env true (some r) w = ground arith

intake-is_recorded :
    (env : Env) (ps : Providers) (fresh : String) (name : PaymentProviderName)
    (raw headers : String) (payload : Payload) (w : World) (port : ProviderPort)
    (answer : WebhookIntakeResult)
    → get_provider ps name ≡ ok port
    → (intake env ps fresh name raw headers payload w).0 ≡ ok answer
    → is_recorded name
        (port.parse_event fresh payload).event_id
        (intake env ps fresh name raw headers payload w).1
      ≡ true
unfolding intake ◌>>=◌ query record_event
intake-is_recorded env ps fresh name raw headers payload w port answer found h =
    let id = (port.parse_event fresh payload).event_id in
    let valid = port.verify_signature raw headers in
    let status = if valid then WebhookStatus.received else WebhookStatus.skipped in
    let recorded = record_event-is_recorded env.new_id name id payload valid status w.db in
    elim (Result-cases (record_event env.new_id name id payload valid status w.db)) [
      | inl ((o, d'), e) ↦
          rw (found, e, answer_intake-db env valid o (record w { db = d' })) (recorded d' o e)
      | inr (x, e) ↦ let failed = rw (found, e) at h in cc
    ]

-- When an event with an invalid signature was taken in first, the event with the same id and a
-- valid signature is answered as a duplicate and changes nothing: it is not queued, so it is not
-- processed.
pub intake_forged_first :
    (env env' : Env) (ps : Providers) (name : PaymentProviderName)
    (fresh raw headers fresh' raw' headers' : String) (forged genuine : Payload) (w : World)
    (port : ProviderPort) (answer : WebhookIntakeResult)
    → get_provider ps name ≡ ok port
    → port.verify_signature raw headers ≡ false
    → port.verify_signature raw' headers' ≡ true
    → (port.parse_event fresh forged).event_id ≡ (port.parse_event fresh' genuine).event_id
    → (intake env ps fresh name raw headers forged w).0 ≡ ok answer
    → intake env' ps fresh' name raw' headers' genuine
        (intake env ps fresh name raw headers forged w).1
      ≡ (
        ok (record { accepted = true; duplicate = true }),
        (intake env ps fresh name raw headers forged w).1,
      )
intake_forged_first env env' ps name fresh raw headers fresh' raw' headers' forged genuine w port
      answer found bad good same h =
    let there = intake-is_recorded env ps fresh name raw headers forged w port answer found h in
    let after = (intake env ps fresh name raw headers forged w).1 in
    intake_redelivered env' ps fresh' name raw' headers' genuine after port found
      (ap (λ i. is_recorded name i after) (sym same) ∙ there)
    ∙ rw good refl
