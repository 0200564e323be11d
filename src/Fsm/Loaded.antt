-- ===== src/Fsm/Loaded.antt =====
-- About the whitelist as it is loaded from the table, and its look-ups.
use last_chance_platform.Prelude.{
  ◌≡◌, refl, ap, ◌∙◌, ◌↔◌, Bool, true, false, ◌||◌, ◌&&◌, Option, none, some, List, [], ◌∷◌, ◌++◌,
  any, is_some, arith, Bool-cases, Option-cases, inl, inr,
}
use last_chance_platform.Fsm.{
  Transitions, targets, has, add, add_to, load_row, load_onto, load, can_transition, is_terminal,
}

module _ {S : Type 0} (same : S → S → Bool)
    (same_iff : (a b : S) → (same a b ≡ true) ↔ (a ≡ b)) where
  -- the table has the row
  abbrev pub listed : List (S × S) → S → S → Bool
  listed rows from to = any (λ row. same row.0 from && same row.1 to) rows

  has-append : (set : List S) (t x : S) → has same (set ++ t ∷ []) x ≡ (has same set x || same t x)
  unfolding has
  has-append [] t x = ground arith
  has-append (s ∷ set) t x = ground (arith, has-append set t x)

  has_of_same :
      (set : List S) (t x : S) → has same set t ≡ true → same t x ≡ true → has same set x ≡ true
  has_of_same set t x h e = rw ((same_iff t x).0 e) at h

  has-add : (set : List S) (t x : S) → has same (add same t set) x ≡ (same t x || has same set x)
  unfolding add
  has-add set t x = elim (Bool-cases (has same set t)) [
    | inl old ↦ rw old (ground (arith, has_of_same set t x old))
    | inr new ↦ rw new (ground (arith, has-append set t x))
  ]

  can-append_new :
      (m : Transitions same) (key x y : S)
      → can_transition same (m ++ (key, []) ∷ []) x y ≡ can_transition same m x y
  unfolding can_transition targets has
  can-append_new [] key x y = ground arith
  can-append_new ((k, set) ∷ m) key x y = ground (arith, can-append_new m key x y)

  -- adding to the set of a key that is there
  can-add_to :
      (from to : S) (m : Transitions same) (x y : S)
      → is_some (targets same m from) ≡ true
      → can_transition same (add_to same from to m) x y
        ≡ ((same from x && same to y) || can_transition same m x y)
  unfolding can_transition targets add_to
  can-add_to from to [] x y h = cc
  can-add_to from to ((k, set) ∷ m) x y h = ground (
    arith,
    same_iff k x,
    same_iff from x,
    same_iff k from,
    has-add set to y,
    can-add_to from to m x y,
  )

  targets-append_new :
      (m : Transitions same) (key : S) → is_some (targets same (m ++ (key, []) ∷ []) key) ≡ true
  unfolding targets
  targets-append_new [] key = ground (arith, same_iff key key)
  targets-append_new ((k, set) ∷ m) key = ground (arith, targets-append_new m key)

  can-load_row :
      (m : Transitions same) (from to x y : S)
      → can_transition same (load_row same m (from, to)) x y
        ≡ ((same from x && same to y) || can_transition same m x y)
  unfolding load_row
  can-load_row m from to x y = elim (Bool-cases (is_some (targets same m from))) [
    | inl known ↦ rw known (can-add_to from to m x y known)
    | inr fresh ↦ rw fresh (
        can-add_to from to (m ++ (from, []) ∷ []) x y (targets-append_new m from)
        ∙ ap (λ b. (same from x && same to y) || b) (can-append_new m from x y))
  ]

  can-load_onto :
      (m : Transitions same) (rows : List (S × S)) (x y : S)
      → can_transition same (load_onto same m rows) x y
        ≡ (can_transition same m x y || listed rows x y)
  unfolding load_onto
  can-load_onto m [] x y = ground arith
  can-load_onto m ((from, to) ∷ rows) x y =
      ground
        (arith, can-load_row m from to x y, can-load_onto (load_row same m (from, to)) rows x y)

  no_targets :
      (m : Transitions same) (status : S)
      → is_terminal same m status ≡ true
      → (to : S) → can_transition same m status to ≡ false
  unfolding is_terminal can_transition has
  no_targets m status h to = elim (Option-cases (targets same m status)) [
    | inl unknown ↦ rw (unknown, can_transition)
    | inr (set, found) ↦ ground arith
  ]

  terminal_of_none :
      (m : Transitions same) (status : S)
      → ((to : S) → can_transition same m status to ≡ false)
      → is_terminal same m status ≡ true
  unfolding is_terminal can_transition has
  terminal_of_none m status h = by_targets (targets same m status) refl
    where
      by_targets :
          (o : Option (List S)) → targets same m status ≡ o → is_terminal same m status ≡ true
      by_targets none e = rw (e, is_terminal)
      by_targets (some []) e = rw (e, is_terminal)
      by_targets (some (t ∷ set)) e = ground (arith, h t, same_iff t t)

  pub can_transition-load :
      (rows : List (S × S)) (from to : S)
      → can_transition same (load same rows) from to ≡ listed rows from to
  unfolding load can_transition targets
  can_transition-load rows from to = can-load_onto [] rows from to

  is_terminal-load :
      (rows : List (S × S)) (status : S)
      → (is_terminal same (load same rows) status ≡ true)
        ↔ ((to : S) → listed rows status to ≡ false)
  is_terminal-load rows status = (
    λ h to. rw (← can_transition-load rows status to) (no_targets (load same rows) status h to),
    λ h.
        terminal_of_none (load same rows) status
          (λ to. rw (can_transition-load rows status to) (h to)),
  )
