-- ===== src/Popup/Close.antt =====
-- `closeWithoutSave`, `addNewRow` and `initDeletionCell`. The answer to a `confirm` and the state of
-- the check boxes are arguments.
pub mod Restored
use budget_app.Base.{
  ℕ, ◌+◌, Bool, true, false, String, List, [], ◌∷◌, ◌++◌, ltb, ◌==◌, if◌then◌else◌, split,
}
use budget_app.Js.{Number, Value, undefined, str, bool, Row, put, loose_eq}
use budget_app.Page.{Item, Effect, confirm, hide, invalidate}
use budget_app.Popup.Rows.{Popup, cleared}
use budget_app.Popup.Checks.{strip_ends}

abbrev close_question : String
close_question =
    " Warning: The brand allocations if entered will not be saved by the system. \n\nDo you want to continue?"

module _ {N : Type 0} ⦃n : Number N⦄ where
  -- The brands of the owner, [] for a name that is not listed.
  unfoldable pub listed_tags : List (String × String) → Value N → List String
  unfolding strip_ends
  listed_tags [] owner = []
  listed_tags ((user, brands) ∷ users) owner =
      if loose_eq (str user) owner then split b',' (strip_ends brands) else listed_tags users owner

  -- The brand field of the clicked row as it was before the pop-up.
  unfoldable pub restore_brand : Row N → Row N
  restore_brand d =
      let e = if loose_eq (d 37) (bool false) then put d 6 (d 44) else d in
      if loose_eq (e 34) (str "New projects") then put e 6 (str "") else e

  unfoldable pub close_without_save : Bool → Popup N → Popup N × List (Effect N)
  close_without_save accepted p =
      let item = record p.clicked { cells = restore_brand p.clicked.cells } in
      let closed : Popup N = record {
        rows = cleared p.rows;
        clicked = item;
        tags = "Smart WBS" ∷ listed_tags p.users (p.clicked.cells 1);
        users = p.users;
      } in
      if accepted
      then (closed, confirm close_question ∷ hide "multibrandEdit" ∷ hide "back" ∷ invalidate ∷ [])
      else (p, confirm close_question ∷ [])

module _ {N : Type 0} where
  -- A fresh row of the table: the texts of the fields 0 to 7 and 9 are empty, the box is not ticked.
  unfoldable pub new_row : Row N
  new_row j =
      if (ltb j 8)
      then str ""
      else if j == 8
      then bool false
      else if j == 9
      then str ""
      else undefined

  -- The grid shows `m_data`, so that `m_grid.getDataLength()` is its length.
  unfoldable pub add_new_row : Popup N → Popup N
  unfolding new_row
  add_new_row p = record p { rows = p.rows ++ (new_row ∷ []) }

  -- The loop of `initDeletionCell` from row `i` on.
  unfoldable pub tick_boxes : (ℕ → Bool) → ℕ → List (Row N) → List (Row N)
  tick_boxes checked i [] = []
  tick_boxes checked i (d ∷ ds) = put d 8 (bool (checked i)) ∷ tick_boxes checked (i + 1) ds
