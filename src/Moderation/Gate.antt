-- ===== src/Moderation/Gate.antt =====
-- About the gate between a decision on a listing and the bookings of its units: `findBookable` of
-- backend/src/modules/booking/infrastructure/unit.repository.ts beside the moderation service.
use mathlib.Core.Path.{subst}
use last_chance_platform.Prelude.{
  ℕ, Bool, true, false, ◌≡◌, refl, some, List, [], ◌∷◌, All, find?, is_some, ◌==◌, Bool-cases, inl,
  inr, arith,
}
use last_chance_platform.Domain.Inventory.{ModerationStatus, Property, StayUnit, HostProfile}
use last_chance_platform.Domain.Moderation.{ModerationEvent, same_moderation}
use last_chance_platform.World.Store.{Db, World}
use last_chance_platform.Booking.Repository.{unit_row}
use last_chance_platform.Booking.Service.{open_for_booking}
use last_chance_platform.Moderation.Repository.{is_listed, is_compliant}
use last_chance_platform.Moderation.Log.{History, AllLogged, IsLogged}
use last_chance_platform.Moderation.Service.{Desk}
use last_chance_platform.Moderation.Service.Keeps.{DeskPreserves}
use last_chance_platform.Moderation.Service.History.{
  Decision, decide_all, decide_all-IsLogged, was_submitted,
}

-- Only a submission leaves DRAFT, and only a listing that was submitted goes anywhere else.
not_from_draft :
    (from to : ModerationStatus)
    → is_listed from to ≡ true
    → same_moderation to ModerationStatus.draft ≡ false
    → same_moderation to ModerationStatus.pending_approval ≡ false
    → same_moderation from ModerationStatus.draft ≡ false
unfolding same_moderation
not_from_draft from to l d p = ground arith

History-was_submitted :
    (id : ℕ) (s : ModerationStatus) (events : List ModerationEvent)
    → same_moderation s ModerationStatus.draft ≡ false
    → History id s events
    → was_submitted id events ≡ true
unfolding same_moderation
History-was_submitted id s [] d h = absurd (ground arith)
History-was_submitted id s (e ∷ events) d h = elim (Bool-cases (e.property_id == id)) [
  | inl own ↦
      let (to, listed, _, before) = rw own at h in
      elim (Bool-cases (same_moderation s ModerationStatus.pending_approval)) [
        | inl now ↦ rw (own, to, now) refl
        | inr earlier ↦
            let rest =
              History-was_submitted id e.from_status events
                (not_from_draft e.from_status s listed d earlier) before in
            ground (arith, rest)
      ]
  | inr other ↦ rw other (History-was_submitted id s events d (rw other at h))
]

head_found :
    (p : Property → Bool) (q : Property) (rows : List Property) (r : Property)
    → p q ≡ true
    → find? p (q ∷ rows) ≡ some r
    → q ≡ r
head_found p q rows r here found = ground arith

row-Logged :
    (events : List ModerationEvent) (p : Property → Bool) (rows : List Property) (r : Property)
    → AllLogged events rows
    → find? p rows ≡ some r
    → (is_compliant r ≡ true) × History r.id r.moderation_status events
row-Logged events p [] r l found = absurd (ground arith)
row-Logged events p (q ∷ rows) r l found = elim (Bool-cases (p q)) [
  | inl here ↦
      let same = head_found p q rows r here found in
      subst (λ (s : Property). (is_compliant s ≡ true) × History s.id s.moderation_status events)
        same (l.1, l.2)
  | inr later ↦ row-Logged events p rows r l.3 (ground arith)
]

unit_row-property :
    (unit : ℕ) (db : Db) (u : StayUnit) (p : Property) (h : HostProfile)
    → unit_row unit db ≡ some (u, p, h)
    → find? (λ (q : Property). q.id == u.property_id) db.properties ≡ some p
unfolding unit_row
unit_row-property unit db u p h e = ground arith

open_for_booking-approved :
    (u : StayUnit) (p : Property)
    → open_for_booking u p ≡ true
    → p.moderation_status ≡ ModerationStatus.approved
unfolding open_for_booking
open_for_booking-approved u p h = ground arith

papers :
    (p : Property)
    → is_compliant p ≡ true
    → p.moderation_status ≡ ModerationStatus.approved
    → (is_some p.national_short_address ≡ true)
      × (is_some p.tourism_permit_number ≡ true)
      × (is_some p.tourism_permit_expires_at ≡ true)
unfolding is_compliant same_moderation
papers p c a = (ground arith, ground arith, ground arith)

-- After any sequence of calls of the moderation service, a unit that is open for booking belongs to
-- a listing that, by the log, was submitted for review, and that has a national address, a permit
-- number and an end of the permit; provided that the log told every listing's history at first, and
-- that whatever runs at the awaits, and the indexer, keep it so.
pub bookable_was_reviewed :
    (calls : List (Desk × Decision)) (w : World) (unit : ℕ) (u : StayUnit) (p : Property)
    (h : HostProfile)
    → All (λ c. DeskPreserves IsLogged c.0) calls
    → IsLogged w.db
    → unit_row unit (decide_all calls w).db ≡ some (u, p, h)
    → open_for_booking u p ≡ true
    → (was_submitted p.id (decide_all calls w).db.moderation_events ≡ true)
      × (is_some p.national_short_address ≡ true)
      × (is_some p.tourism_permit_number ≡ true)
      × (is_some p.tourism_permit_expires_at ≡ true)
unfolding same_moderation
bookable_was_reviewed calls w unit u p h kept logged row open_now =
    let db = (decide_all calls w).db in
    let ends = decide_all-IsLogged calls w kept logged in
    let (good, story) =
      row-Logged db.moderation_events _ db.properties p ends.rows
        (unit_row-property unit db u p h row) in
    let approved = open_for_booking-approved u p open_now in
    let (address, number, expiry) = papers p good approved in
    (
      History-was_submitted p.id p.moderation_status db.moderation_events (rw approved refl) story,
      address,
      number,
      expiry,
    )
