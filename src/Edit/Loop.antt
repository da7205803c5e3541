-- ===== src/Edit/Loop.antt =====
-- The loop over the rows.
use budget_app.Base.{Bool, true, false, Option, some, List, [], ◌∷◌, ◌++◌, ◌>>=◌}
use budget_app.Edit.Cells.{Context, Globals}
use budget_app.Edit.Rows.{Change, going, halted, first_part, note_month, copy_name, lts_month}
use budget_app.Js.{Number, Row}

-- The rows, `aSaveData`, the globals, and whether a blank name has ended the edit.
pub record Edited (N : Type 0) : Type 0 where
  pub rows : List (Row N)
  pub changes : List (Change N)
  pub globals : Globals N
  pub ended : Bool

module _ {N : Type 0} ⦃n : Number N⦄ where
  abbrev pub add_turn : Row N → List (Change N) → Edited N → Edited N
  add_turn d cs r = record r { rows = d ∷ r.rows; changes = cs ++ r.changes }

  -- The second part of a turn.
  unfoldable pub second_part : Context N → Globals N → Row N → Option (Row N)
  second_part c g e = do named ← copy_name c e; some (lts_month c g named)

  unfoldable pub edit_rows : Context N → Globals N → List (Row N) → Option (Edited N)
  unfolding second_part
  edit_rows c g [] = some (record { rows = []; changes = []; globals = g; ended = false })
  edit_rows c g (d ∷ ds) = first_part c d >>= λ t. elim t [
    | halted e ↦ some (record { rows = e ∷ ds; changes = []; globals = g; ended = true })
    | going e cs ↦
        let g' = note_month c d e g in
        let later = edit_rows c g' ds in
        second_part c g' e >>= λ e'. later >>= λ r. some (add_turn e' cs r)
  ]
