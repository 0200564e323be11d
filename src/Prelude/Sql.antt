-- ===== src/Prelude/Sql.antt =====
-- The statements of the repositories over a table, a list of rows.
use mathlib.Core.Bool.{Bool}
use mathlib.Core.List.{List, [], ◌∷◌}
use last_chance_platform.Prelude.Tests.{if◌then◌else◌}

-- `UPDATE … SET f WHERE p`
module _ {R : Type 0} where
  abbrev pub update_where : (R → Bool) → (R → R) → List R → List R
  update_where p f [] = []
  update_where p f (r ∷ rows) = (if p r then f r else r) ∷ update_where p f rows
