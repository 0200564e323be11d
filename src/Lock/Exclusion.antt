-- ===== src/Lock/Exclusion.antt =====
-- What the key of a lock promises to its owner.
use last_chance_platform.Prelude.{
  ℕ, ◌+◌, ◌≤◌, ◌<◌, ◌≡◌, ◌≢◌, ◌↔◌, inl, inr, Bool-cases, ==_iff, refl, true, Option, none, some,
  List, [], ◌∷◌, ◌==◌, arith,
}
use last_chance_platform.World.Store.{LockEntry, World}
use last_chance_platform.Lock.{AcquiredLock, holder, without, set_nx, release}

-- Whose token the key holds at an instant.
unfoldable pub owner : ℕ → ℕ → World → Option ℕ
owner now key w = elim (holder now key w.locks) [ none ↦ none | some e ↦ some e.token ]

holder-without : (now key : ℕ) (locks : List LockEntry) → holder now key (without key locks) ≡ none
unfolding holder
holder-without now key [] = refl
holder-without now key (e ∷ locks) = ground (arith, holder-without now key locks)

holder-without_ne :
    (now key other : ℕ) (locks : List LockEntry)
    → key ≢ other
    → holder now other (without key locks) ≡ holder now other locks
unfolding holder
holder-without_ne now key other [] ne = refl
holder-without_ne now key other (e ∷ locks) ne =
    ground (arith, holder-without_ne now key other locks ne)

pub set_nx-owner :
    (now later key token ttl : ℕ) (w : World)
    → (set_nx now key token ttl w).0 ≡ true
    → later ≤ now + ttl
    → owner later key (set_nx now key token ttl w).1 ≡ some token
unfolding set_nx owner holder
set_nx-owner now later key token ttl w took alive = ground arith

-- Once that end has passed, nobody owns the key.
pub set_nx-ended :
    (now later key token ttl : ℕ) (w : World)
    → (set_nx now key token ttl w).0 ≡ true
    → now + ttl < later
    → owner later key (set_nx now key token ttl w).1 ≡ none
unfolding set_nx owner holder
set_nx-ended now later key token ttl w took over = ground (arith, holder-without later key w.locks)

set_nx_iff :
    (now key token ttl : ℕ) (w : World)
    → ((set_nx now key token ttl w).0 ≡ true) ↔ (owner now key w ≡ none)
unfolding set_nx owner
set_nx_iff now key token ttl w = ground arith

owner-release :
    (now key : ℕ) (lock : AcquiredLock) (w : World)
    → ((owner now lock.key w ≡ some lock.token) → owner now lock.key (release now lock w) ≡ none)
      × ((owner now key w ≢ some lock.token) → owner now key (release now lock w) ≡ owner now key w)
unfolding owner release
owner-release now key lock w = (
  λ ours. ground (arith, holder-without now lock.key w.locks),
  λ other. elim (Bool-cases (lock.key == key)) [
    | inl same ↦ rw ((==_iff lock.key key).0 same) (ground arith)
    | inr apart ↦ ground (arith, holder-without_ne now lock.key key w.locks)
  ],
)

pub release-fences :
    (now : ℕ) (lock : AcquiredLock) (w : World) → (release now lock w).fences ≡ w.fences
unfolding release
release-fences now lock w = ground arith
