-- ===== src/Fsm.antt =====
-- A transition whitelist loaded from a table: what
-- backend/src/modules/booking/application/booking-fsm.engine.ts and
-- backend/src/modules/moderation/application/moderation-fsm.engine.ts have in common. The map of
-- sets is an association list; `same` is the equality of two statuses.
pub mod Loaded
use last_chance_platform.Prelude.{
  Bool, true, false, not, ◌||◌, ◌&&◌, Option, none, some, List, [], ◌∷◌, ◌++◌, any, is_some,
  if◌then◌else◌,
}

module _ {S : Type 0} (same : S → S → Bool) where
  -- `new Map<S, Set<S>>()`, by its entries
  abbrev pub Transitions : Type 0
  Transitions = List (S × List S)

  -- `transitions.get(from)`
  unfoldable pub targets : Transitions → S → Option (List S)
  targets [] from = none
  targets ((key, set) ∷ rest) from = if same key from then some set else targets rest from

  -- `set.has(to)`
  unfoldable pub has : List S → S → Bool
  has set to = any (λ s. same s to) set

  -- `set.add(to)`
  unfoldable pub add : S → List S → List S
  add to set = if has set to then set else set ++ to ∷ []

  -- `transitions.get(from)!.add(to)`
  unfoldable pub add_to : S → S → Transitions → Transitions
  add_to from to [] = []
  add_to from to ((key, set) ∷ rest) =
      if same key from then (key, add to set) ∷ rest else (key, set) ∷ add_to from to rest

  -- one row: the key is set to an empty set unless it is there
  unfoldable pub load_row : Transitions → S × S → Transitions
  load_row m (from, to) =
      add_to from to (if is_some (targets m from) then m else m ++ (from, []) ∷ [])

  unfoldable pub load_onto : Transitions → List (S × S) → Transitions
  load_onto m [] = m
  load_onto m (row ∷ rows) = load_onto (load_row m row) rows

  -- `onApplicationBootstrap`, on the rows of the table
  unfoldable pub load : List (S × S) → Transitions
  load rows = load_onto [] rows

  unfoldable pub can_transition : Transitions → S → S → Bool
  can_transition m from to = elim (targets m from) [ none ↦ false | some set ↦ has set to ]

  unfoldable pub allowed_from : Transitions → S → List S
  allowed_from m from = elim (targets m from) [ none ↦ [] | some set ↦ set ]

  abbrev is_empty : List S → Bool
  is_empty [] = true
  is_empty (_ ∷ _) = false

  -- no outgoing transition
  unfoldable pub is_terminal : Transitions → S → Bool
  is_terminal m status = elim (targets m status) [ none ↦ true | some set ↦ is_empty set ]
