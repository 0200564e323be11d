-- ===== src/Auth/Service/SignIn.antt =====
-- About the accounts that a sign-in, by password or by a code, opens.
use mathlib.Core.Option.{some-injective}
use last_chance_platform.Prelude.{
  ℕ, ◌<◌, ◌≡◌, refl, sym, ap, ◌∙◌, true, String, some, List, [], ◌∷◌, find?, find?-sound, ==_refl,
  ◌==◌, Option-cases, Bool-cases, inl, inr, arith,
}
use last_chance_platform.Prelude.Result.{ok}
use last_chance_platform.Prelude.Action.{pure, throw, or_throw, throw_if, ◌>>=◌}
use last_chance_platform.Domain.Auth.{User}
use last_chance_platform.World.Store.{Db, World}
use last_chance_platform.World.Effects.{Env, select, query, pause}
use last_chance_platform.World.Steps.{>>=-ok}
use last_chance_platform.Auth.Accounts.{
  is_active, find_by_email, touch_login, upsert_phone_user, has_phone, phone_verified,
}
use last_chance_platform.Auth.Phone.{normalise_phone}
use last_chance_platform.Auth.Otp.{verify}
use last_chance_platform.Auth.Otp.Guesses.{Alone}
use last_chance_platform.Auth.Otp.Limits.{Holds, right_code-verified}
use last_chance_platform.Prelude.Sql.{update_where}
use last_chance_platform.Auth.Service.{
  AuthPorts, AuthResult, is_host_user, claims_row, result_of, issue_for, stored_hash, checked_user,
  login, phone_of, verify_phone_otp,
}

-- the session is of the row with the id
issue_for-id :
    (ports : AuthPorts) (id : ℕ) (w : World) (r : AuthResult)
    → (issue_for ports id w).0 ≡ ok r
    → r.id ≡ id
unfolding issue_for ◌>>=◌ select or_throw pure claims_row result_of
issue_for-id ports id w r h = elim (Option-cases (find? (λ (u : User). u.id == id) w.db.users)) [
  | inl gone ↦ absurd (ground arith)
  | inr (u, found) ↦
      let same = find?-sound (λ (v : User). v.id == id) w.db.users u found in ground arith
]

-- An account that a password opens.
pub record Opens (env : Env) (ports : AuthPorts) (email password : String) (u : User) (db : Db)
    : Type 0 where
  pub found : find_by_email ports.same_email email db ≡ some u
  pub right : ports.verify_password password (stored_hash env ports (some u)) ≡ true
  pub active : is_active u.status ≡ true

module _ (env : Env) (ports : AuthPorts) where
  login-checked :
      (email password : String) (w : World) (r : AuthResult)
      → (login env ports email password w).0 ≡ ok r
      → (u : User) × (find_by_email ports.same_email email w.db ≡ some u)
        × (ports.verify_password password (stored_hash env ports (some u)) ≡ true)
        × (is_active u.status ≡ true)
        × (w' : World) × ((issue_for ports u.id w').0 ≡ ok r)
  unfolding login ◌>>=◌ select checked_user pure throw pause query touch_login
  login-checked email password w r h =
      elim (Option-cases (find_by_email ports.same_email email w.db)) [
        | inl gone ↦ absurd (ground arith)
        | inr (u, found) ↦
            let w' =
              env.meanwhile 35 (query (touch_login env.db_now u.id) (env.meanwhile 34 w)).1 in
            (u, found, ground arith, ground arith, w', ground arith)
      ]

  -- When `login` returns a session, then the table that it read had a row with the address that is
  -- not deleted, the password was verified against the hash of that row (or the dummy, if it has
  -- none), the row was active, and the session is for its id.
  pub login-Opens :
      (email password : String) (w : World) (r : AuthResult)
      → (login env ports email password w).0 ≡ ok r
      → (u : User) × Opens env ports email password u w.db × (r.id ≡ u.id)
  login-Opens email password w r h =
      let (u, found, right, active, w', issued) = login-checked email password w r h in
      (
        u,
        record { found = found; right = right; active = active },
        issue_for-id ports u.id w' r issued,
      )

issue_for-returns :
    (ports : AuthPorts) (id : ℕ) (u : User) (w : World)
    → find? (λ (v : User). v.id == id) w.db.users ≡ some u
    → (r : AuthResult) × ((issue_for ports id w).0 ≡ ok r)
unfolding issue_for ◌>>=◌ select or_throw pure claims_row
issue_for-returns ports id u w found = (result_of ports u (is_host_user u.id w.db), ground arith)

-- the row that a sign-in updates is still found by its id
updated_found :
    (phone : String) (now : ℕ) (u : User) (rows : List User)
    → find? (has_phone phone) rows ≡ some u
    → (v : User) × (find?
          (λ (r : User). r.id == u.id)
          (update_where (has_phone phone) (phone_verified now) rows)
        ≡ some v)
updated_found phone now u [] h = absurd (ground arith)
updated_found phone now u (v ∷ rows) h = elim (Bool-cases (has_phone phone v)) [
  | inl here ↦
      let same : v ≡ u = some-injective _ _ (rw here at h) in
      (phone_verified now v, rw here (rw (sym (ap (λ (x : User). x.id) same), ==_refl v.id) refl))
  | inr later ↦ elim (Bool-cases (v.id == u.id)) [
    | inl same ↦ (v, rw (later, same) refl)
    | inr apart ↦
        let (x, found) = updated_found phone now u rows (rw later at h) in
        (x, rw (later, apart) found)
  ]
]

module _ (env : Env) (ports : AuthPorts) (alone : Alone env) where
  phone_of-ok :
      (raw phone : String) (w : World)
      → normalise_phone raw ≡ ok phone
      → phone_of env ports raw w ≡ (ok phone, w)
  unfolding phone_of
  phone_of-ok raw phone w h = ground arith

  pause-alone : (k : ℕ) (w : World) → pause env k w ≡ (ok tt, w)
  unfolding pause
  pause-alone k w = rw alone.alone refl

  abbrev signed_in : String → World → World
  signed_in phone w = record w {
    db = record w.db {
      users = update_where (has_phone phone) (phone_verified env.db_now) w.db.users;
    };
  }

  upserted :
      (phone : String) (u : User) (w : World)
      → find? (has_phone phone) w.db.users ≡ some u
      → query (upsert_phone_user env.db_now env.new_id phone) w ≡ (ok u.id, signed_in phone w)
  unfolding query upsert_phone_user
  upserted phone u w h = ground arith

  verified-session :
      (raw phone code : String) (u : User) (w w1 : World)
      → normalise_phone raw ≡ ok phone
      → verify env phone ports.digest code w ≡ (ok true, w1)
      → find? (has_phone phone) w1.db.users ≡ some u
      → verify_phone_otp env ports raw code w ≡ issue_for ports u.id (signed_in phone w1)
  unfolding verify_phone_otp throw_if
  verified-session raw phone code u w w1 number verified known =
      >>=-ok _ _ w w phone (phone_of-ok raw phone w number)
      ∙ (>>=-ok _ _ w w1 true verified
          ∙ (>>=-ok _ _ w1 w1 tt refl
              ∙ (>>=-ok _ _ w1 w1 tt (pause-alone 37 w1)
                  ∙ (>>=-ok _ _ w1 (signed_in phone w1) u.id (upserted phone u w1 known)
                      ∙ >>=-ok _ _ (signed_in phone w1) (signed_in phone w1) tt
                          (pause-alone 38 (signed_in phone w1))))))

  -- With no other request between its steps, a right code in time for a number that an account has
  -- returns a session for that account, whatever its status, and also when it is deleted.
  pub phone_sign_in_any_status :
      (raw phone code hash : String) (attempts t : ℕ) (u : User) (w : World)
      → normalise_phone raw ≡ ok phone
      → Holds env alone ports.digest phone hash attempts t w
      → env.redis_now 0 < t
      → hash ≡ ports.digest phone code
      → find? (has_phone phone) w.db.users ≡ some u
      → (r : AuthResult) × ((verify_phone_otp env ports raw code w).0 ≡ ok r) × (r.id ≡ u.id)
  phone_sign_in_any_status raw phone code hash attempts t u w number holds runs same known =
      let (w1, verified, consumed, kept) =
        right_code-verified env alone ports.digest phone code hash attempts t w holds runs same in
      let still : find? (has_phone phone) w1.db.users ≡ some u = rw kept known in
      let (v, found) = updated_found phone env.db_now u w1.db.users still in
      let (r, issued) = issue_for-returns ports u.id v (signed_in phone w1) found in
      (
        r,
        rw (verified-session raw phone code u w w1 number verified still) issued,
        issue_for-id ports u.id (signed_in phone w1) r issued,
      )
