-- ===== src/Payment/Admin/Held.antt =====
-- About a payout that an operator holds: what the job that would pay it does, and its release.
use last_chance_platform.Prelude.{
  ℕ, ◌≡◌, ◌≤◌, refl, ◌∙◌, String, Bool, true, false, ◌&&◌, some, List, [], ◌∷◌, find?, ltb, ◌==◌,
  arith,
}
use last_chance_platform.Prelude.Sql.{update_where}
use last_chance_platform.Prelude.Result.{ok}
use last_chance_platform.Prelude.Action.{pure, or_throw, throw_if}
use last_chance_platform.Domain.Payment.{PayoutStatus, Payout}
use last_chance_platform.World.Store.{World}
use last_chance_platform.World.Effects.{Env, select, query, pause}
use last_chance_platform.World.Steps.{>>=-ok}
use last_chance_platform.Payment.Repository.{updated}
use last_chance_platform.Payment.Inbox.{find_payout, payout_is_pending}
use last_chance_platform.Payment.Provider.{Providers}
use last_chance_platform.Payment.Payout.{execute_found, execute_payout_job}
use last_chance_platform.Payment.Admin.{
  trimmed_length, may_hold, payout_moved, move_payout, transition_payout, hold,
}

module _ (id : ℕ) (from : PayoutStatus → Bool) (to : PayoutStatus) where
  abbrev movable : Payout → Bool
  movable r = (id == r.id) && from r.status

  found-movable :
      (rows : List Payout) (q : Payout)
      → find? (λ (r : Payout). id == r.id) rows ≡ some q
      → from q.status ≡ true
      → find? movable rows ≡ some q
  found-movable [] q h k = absurd (ground arith)
  found-movable (r ∷ rows) q h k = ground (arith, found-movable rows q)

  found-moved :
      (rows : List Payout) (q : Payout)
      → find? (λ (r : Payout). id == r.id) rows ≡ some q
      → from q.status ≡ true
      → find? (λ (r : Payout). id == r.id) (update_where movable (payout_moved to) rows)
        ≡ some (payout_moved to q)
  found-moved [] q h k = absurd (ground arith)
  found-moved (r ∷ rows) q h k = ground (arith, found-moved rows q)

  abbrev pub moved_world : World → World
  moved_world w = record w {
    db = record w.db { payouts = update_where movable (payout_moved to) w.db.payouts };
  }

  moves :
      (q : Payout) (w : World)
      → find_payout id w.db ≡ some q
      → from q.status ≡ true
      → query (move_payout id from to) w ≡ (ok (some (payout_moved to q)), moved_world w)
  unfolding query move_payout find_payout updated
  moves q w h k = let matched = found-movable w.db.payouts q h k in ground arith

  still_found :
      (q : Payout) (w : World)
      → find_payout id w.db ≡ some q
      → from q.status ≡ true
      → find_payout id (moved_world w).db ≡ some (payout_moved to q)
  unfolding find_payout
  still_found q w h k = found-moved w.db.payouts q h k

  module _ (env : Env) (alone : env.meanwhile ≡ λ k v. v) where
    transition_payout-moves :
        (reason : String) (q : Payout) (w : World)
        → 10 ≤ trimmed_length reason
        → find_payout id w.db ≡ some q
        → from q.status ≡ true
        → transition_payout env id from to reason w ≡ (ok (payout_moved to q), moved_world w)
    unfolding transition_payout throw_if select or_throw pause
    transition_payout-moves reason q w long h k =
        let said : ltb (trimmed_length reason) 10 ≡ false = ground arith in
        let w' = moved_world w in
        >>=-ok _ _ w w tt (rw said refl)
        ∙ (>>=-ok _ _ w w' (some (payout_moved to q)) (moves q w h k)
            ∙ (>>=-ok _ _ w' w' tt refl
                ∙ (>>=-ok _ _ w' w' tt (rw alone refl)
                    ∙ >>=-ok _ _ w' w' (some (payout_moved to q)) (rw (still_found q w h k) refl))))

execute-idle :
    (env : Env) (ps : Providers) (id : ℕ) (q : Payout) (w : World)
    → find_payout id w.db ≡ some q
    → payout_is_pending q.status ≡ false
    → execute_payout_job env ps id w ≡ (ok tt, env.meanwhile 6 w)
unfolding execute_payout_job select pause execute_found pure
execute-idle env ps id q w h k =
    >>=-ok _ _ w w (some q) (rw h refl) ∙ (>>=-ok _ _ w (env.meanwhile 6 w) tt refl ∙ rw k refl)

module _ (env : Env) (alone : env.meanwhile ≡ λ k v. v) (id : ℕ) (reason : String) where
  -- With no other request between the steps of the hold, and with a reason of ten characters, a
  -- payout that is pending or scheduled becomes held, and the job that would pay it, with any
  -- provider, then returns and does nothing.
  pub hold_stops_payout :
      (q : Payout) (w : World) (later : Env) (ps : Providers)
      → 10 ≤ trimmed_length reason
      → find_payout id w.db ≡ some q
      → may_hold q.status ≡ true
      → (w' : World) × (hold env id reason w ≡ (ok (payout_moved PayoutStatus.on_hold q), w'))
        × (find_payout id w'.db ≡ some (payout_moved PayoutStatus.on_hold q))
        × (execute_payout_job later ps id w' ≡ (ok tt, later.meanwhile 6 w'))
  unfolding hold
  hold_stops_payout q w later ps long found may =
      let held = still_found id may_hold PayoutStatus.on_hold q w found may in
      (
        moved_world id may_hold PayoutStatus.on_hold w,
        transition_payout-moves id may_hold PayoutStatus.on_hold env alone reason q w long found
            may,
        held,
        execute-idle later ps id (payout_moved PayoutStatus.on_hold q) _ held refl,
      )
