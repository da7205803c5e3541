-- ===== src/Popup/Rows.antt =====
-- The state that the pop-up's handlers share, and its rows. The fields of a row are 1 the brand,
-- 2 the allocation in percent, 3 the amount, 4 the project name, 5 the gMemori id, 7 the owner,
-- 8 whether the row's check box is ticked and 9 "preExisting" for a row that is stored already.
use budget_app.Base.{String, List, [], ◌∷◌, ltb, if◌then◌else◌}
use budget_app.Js.{undefined, str, Row}
use budget_app.Page.{Item}

pub record Popup (N : Type 0) : Type 0 where
  -- `m_data`, `itemClicked`, `availableTags`
  pub rows : List (Row N)
  pub clicked : Item N
  pub tags : List String
  -- `ccUsersVar`: the brands of each user of the cost center, printed as "[a, b]"
  pub users : List (String × String)

-- A fresh object whose fields 0 to 7 hold the empty text.
abbrev pub blank_row : {N : Type 0} → Row N
blank_row j = if ltb j 8 then str "" else undefined

-- Every row is replaced by a fresh one.
unfoldable pub cleared : {N : Type 0} → List (Row N) → List (Row N)
cleared [] = []
cleared (d ∷ ds) = blank_row ∷ cleared ds
