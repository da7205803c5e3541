-- ===== src/Edit/Update.antt =====
-- `updateMemCache` as a whole. `at` is the position of the edited row among all rows; whether the
-- hidden columns are hidden, the answer to the confirmation, the last key, the quarter and the cut-off
-- date are arguments.
use budget_app.Base.{
  ℕ, zero, suc, Bool, true, ◌&&◌, ◌||◌, String, Option, none, some, List, [], ◌∷◌, ◌++◌, get_elem?,
  ◌==◌, if◌then◌else◌, concat, contains, ◌>>=◌,
}
use budget_app.Constants.{
  brand_cell, po_number_cell, remark_cell, gmemori_id_cell, brand_field, gmemori_id_field, forecast,
}
use budget_app.Edit.Brand.{barred, opens, stores, brand_edit, copy_brand}
use budget_app.Edit.Cells.{Context, Globals, fixed_cell, is_month, matches, key_of}
use budget_app.Edit.Loop.{edit_rows}
use budget_app.Edit.Remainder.{remainder}
use budget_app.Edit.Rows.{Change}
use budget_app.Js.{Number, Value, str, num, bool, Row, put, to_string, loose_eq}
use budget_app.Page.{
  Effect, alert, confirm, status, show, invalidate, goto_cell, reload, redraw, summarise, post,
  value, changes,
}
use budget_app.Popup.Rows.{Popup}

-- What an edit works on: `data`, the pop-up and the globals.
pub record State (N : Type 0) : Type 0 where
  pub rows : List (Row N)
  pub popup : Popup N
  pub globals : Globals N

-- What the surroundings decide: `#hideColumns`, the answer to the confirmation, the last key, the
-- users of the cost center, the quarter, its cut-off date, and `totalSize`.
pub record Setting : Type 0 where
  pub hidden : Bool
  pub accepted : Bool
  pub tab : Bool
  pub users : List (String × String)
  pub quarter : ℕ
  pub before_cut_off : Bool
  pub total_size : ℕ

module _ {N : Type 0} where
  -- `data[at][field] = v`
  unfoldable pub set_field : ℕ → ℕ → Value N → List (Row N) → List (Row N)
  set_field at field v [] = []
  set_field zero field v (d ∷ ds) = put d field v ∷ ds
  set_field (suc at) field v (d ∷ ds) = d ∷ set_field at field v ds

module _ {N : Type 0} ⦃n : Number N⦄ where
  -- The first `left` rows of a project get its remark. `none` is the `TypeError` of a missing row.
  unfoldable pub copy_remark : ℕ → Row N → List (Row N) → Option (List (Row N))
  copy_remark zero item ds = some ds
  copy_remark (suc left) item [] = none
  copy_remark (suc left) item (d ∷ ds) =
      let later = copy_remark left item ds in
      let e = if loose_eq (d 31) (item 31) then put d 32 (item remark_cell) else d in
      later >>= λ rest. some (e ∷ rest)

  -- The request.
  unfoldable pub auto_save : ℕ → Row N → List (Change N) → List (Effect N)
  auto_save cell item cs =
      let number = num (n.sub (n.of_nat cell) (n.of_nat 12)) in
      let veil : List (Effect N) =
        if cell == po_number_cell then show "back" ∷ show "loader_image" ∷ [] else [] in
      status "Saving data..." ∷ veil
      ++ post "/AutoSaveData" (
          ("celNum", value number)
          ∷ ("objarray", changes cs)
          ∷ ("costCenter", value (item 47))
          ∷ ("mapType", value (item 11))
          ∷ [])
        ∷ []

  -- The end of an edit that was not ended early.
  unfoldable pub finish : ℕ → Row N → List (Change N) → State N → Option (State N × List (Effect N))
  finish cell item cs s =
      let divided = do
        (cs', ds) ← remainder cell (num (n.of_nat 0)) (num (n.of_nat 0)) cs s.rows
        some (record s { rows = ds }, auto_save cell item cs')
      in if loose_eq (item 37) (bool true) && loose_eq (item 11) (str forecast) && is_month cell
        then divided
        else some (s, auto_save cell item cs)

  unfoldable pub edit_brand :
      Setting → ℕ → Row N → Value N → State N → Option (State N × List (Effect N))
  edit_brand set cell item key s = brand_edit set.tab set.users key item s.popup >>= λ b. elim b [
    | barred ↦ some (s, alert "Click on \"Smart WBS\" to add sub projects." ∷ [])
    | opens q ↦ some (record s { popup = q }, show "multibrandEdit" ∷ redraw ∷ show "back" ∷ [])
    | stores p cs ↦
        let ds = copy_brand key (item brand_field) s.rows in
        finish cell item cs (record { rows = ds; popup = p; globals = s.globals })
  ]

  unfoldable pub edit_cells :
      Setting → ℕ → Row N → Value N → State N → Option (State N × List (Effect N))
  edit_cells set cell item key s = do
    let c : Context N = record {
      cell = cell;
      item = item;
      key = key;
      value = item cell;
      quarter = set.quarter;
      before_cut_off = set.before_cut_off;
    }
    r ← edit_rows c s.globals s.rows
    let t : State N = record s { rows = r.rows; globals = r.globals }
    if r.ended
        then some (t, alert "Project name can not be blank!!!" ∷ [])
        else finish cell item r.changes t

  -- The edit of a remark.
  unfoldable pub edit_remark :
      Setting → ℕ → Row N → Value N → State N → Option (State N × List (Effect N))
  edit_remark set cell item key s = do
    ds ← copy_remark set.total_size item s.rows
    finish cell item ((key, item cell) ∷ []) (record s { rows = ds })

  abbrev po_question : Value N → Effect N
  po_question po =
      confirm (concat "You have entered PO Number " (concat (to_string po) ". Want to continue?"))

  abbrev pub ask :
      Effect N → Option (State N × List (Effect N)) → Option (State N × List (Effect N))
  ask q none = none
  ask q (some (s, es)) = some (s, q ∷ es)

  -- What follows the confirmation.
  unfoldable pub edit_cell : Setting → ℕ → ℕ → Row N → State N → Option (State N × List (Effect N))
  unfolding edit_brand edit_cells edit_remark
  edit_cell set cell fixed item s = do
    key ← key_of item
    if fixed == remark_cell
        then edit_remark set fixed item key s
        else if cell == brand_cell
        then edit_brand set fixed item key s
        else edit_cells set fixed item key s

  -- A PO number is to be confirmed; `go` is the rest of the edit.
  unfoldable pub confirm_po :
      Setting
      → ℕ
      → ℕ
      → ℕ
      → Row N
      → State N
      → Option (State N × List (Effect N))
      → Option (State N × List (Effect N))
  confirm_po set row fixed at item s go =
      let po = po_question (item 8) in
      let cancelled : Option (State N × List (Effect N)) = some (
        record s { rows = set_field at 8 (str "") s.rows },
        po ∷ invalidate ∷ goto_cell row fixed true ∷ status "" ∷ [],
      ) in
      if fixed == po_number_cell then (if set.accepted then ask po go else cancelled) else go

  -- `row` and `cell` are those of the grid.
  unfoldable pub update_mem_cache :
      Setting → ℕ → ℕ → ℕ → State N → Option (State N × List (Effect N))
  unfolding edit_cell confirm_po
  update_mem_cache set row cell at s = do
    item ← get_elem? s.rows at
    let fixed = fixed_cell set.hidden cell
    confirm_po set row fixed at item s (edit_cell set cell fixed item s)

  -- The callbacks of the request. The answer is searched for "<poError>" in its JSON form, which
  -- holds it when the answer does.
  unfoldable pub edit_saved : Bool → ℕ → String → List (Effect N)
  edit_saved multi_to_single cell result =
      (if contains result "<poError>"
        then alert "PO Number already exists !!!" ∷ reload ∷ []
        else [])
      ++ status "All changes saved successfully!"
        ∷ summarise result
        ∷ (if (cell == po_number_cell) || ((cell == brand_cell) && multi_to_single)
            then reload ∷ []
            else [])

  unfoldable pub restore_ids : Context N → List (Row N) → List (Row N)
  restore_ids c [] = []
  restore_ids c (d ∷ ds) =
      (if matches c forecast d && (c.cell == gmemori_id_cell)
        then put d gmemori_id_field (d 27)
        else d)
      ∷ restore_ids c ds

  unfoldable pub edit_failed : Context N → List (Row N) → List (Row N) × List (Effect N)
  unfolding restore_ids
  edit_failed c ds = (restore_ids c ds, status "" ∷ invalidate ∷ [])
