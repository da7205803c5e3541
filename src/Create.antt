-- ===== src/Create.antt =====
-- war/scripts/editProjects.js: the rows that are entered into the grid, `createNewProjects`,
-- `createIntProjects`, `dummyNewProjects`, `dummyActiveProjects`, `dummyClosedProjects`. The name of the
-- user is an argument. The grid's view keeps the same array as `data`.
pub mod Entered
mod Tests
use budget_app.Base.{
  ℕ, zero, suc, Bool, true, false, String, Option, none, some, List, [], ◌∷◌, ◌++◌, length, leb,
  ◌==◌, if◌then◌else◌, text_eq, concat, ◌>>=◌,
}
use budget_app.Constants.{forecast, project_name_cell}
use budget_app.Js.{Number, Value, undefined, str, num, bool, Row, put}
use budget_app.Page.{Item, Effect, show, hide, set_value, goto_cell}

-- `data`, `addsave`, and which groups have rows.
pub record Grid (N : Type 0) : Type 0 where
  pub rows : List (Item N)
  pub addsave : ℕ
  pub new_exist : Bool
  pub active_exist : Bool
  pub closed_exist : Bool

module _ {N : Type 0} where
  -- `dataView.insertItem(at, x)`
  unfoldable pub insert_item : ℕ → Item N → List (Item N) → List (Item N)
  insert_item zero x ds = x ∷ ds
  insert_item (suc at) x [] = x ∷ []
  insert_item (suc at) x (d ∷ ds) = d ∷ insert_item at x ds

  -- `dataView.deleteItem(id)`, which throws for an unknown identifier
  unfoldable pub delete_item : String → List (Item N) → Option (List (Item N))
  delete_item id [] = none
  delete_item id (d ∷ ds) =
      let later = delete_item id ds >>= λ rest. some (d ∷ rest) in
      if text_eq d.id id then some ds else later

  -- The fields that all rows made here start with.
  unfoldable pub blank_fields : Row N
  blank_fields j =
      if j == 26
      then str "New"
      else if j == 33
      then str "New"
      else if j == 36
      then undefined
      else if j == 37
      then bool false
      else if j == 40
      then str forecast
      else if leb j 40
      then str ""
      else undefined

module _ {N : Type 0} ⦃n : Number N⦄ where
  -- `"id_" + length + k`, which joins texts.
  unfoldable pub made : ℕ → String → Row N → Item N
  made length k d = record {
    id = concat "id_" (concat (n.show (n.of_nat length)) k);
    cells = d;
    subs = [];
    children = [];
  }

  unfoldable pub project_fields : String → Row N
  unfolding blank_fields
  project_fields user =
      let d = put (put (put blank_fields 1 (str user)) 7 (str "100.0")) 11 (str forecast) in
      put (put d 34 (str "New projects")) 35 (str "NewProjects")

  -- An empty row of the group of buttons, and the buttons.
  unfoldable pub spacer_fields : Row N
  unfolding blank_fields
  spacer_fields = put (put blank_fields 34 (str "New projects")) 35 (str "Buttons")

  unfoldable pub button_fields : Row N
  unfolding spacer_fields
  button_fields = put (put spacer_fields 6 (str "Save")) 11 (str "Cancel")

  -- A row that stands for a group without projects; its months are zero.
  unfoldable pub zero_months : Row N → Row N
  zero_months d j = if leb 12 j then (if leb j 24 then num (n.of_nat 0) else d j) else d j

  unfoldable pub group_fields : String → Row N
  unfolding blank_fields zero_months
  group_fields status = put (zero_months blank_fields) 26 (str status)

  -- The rows of the buttons, below the first project.
  unfoldable pub insert_buttons : ℕ → List (Item N) → List (Item N)
  unfolding insert_item made spacer_fields button_fields
  insert_buttons length ds = insert_item 3 (made length "6" spacer_fields) (
      insert_item 2 (made length "2" button_fields)
        (insert_item 1 (made length "3" spacer_fields) ds))

  unfoldable pub create_new : String → Grid N → Grid N × List (Effect N)
  unfolding insert_buttons insert_item project_fields group_fields made
  create_new user g =
      let len = length g.rows in
      let first = insert_item 0 (made len "1" (project_fields user)) g.rows in
      let grouped =
        insert_item 5 (made len "4" (group_fields "Closed"))
          (insert_item 4 (made len "5" (group_fields "Active")) (insert_buttons len first)) in
      (
        record {
          rows = if g.addsave == 0 then grouped else first;
          addsave = suc g.addsave;
          new_exist = g.new_exist;
          active_exist = true;
          closed_exist = true;
        },
        show "displayGrid" ∷ hide "topCrtNewProjBtn" ∷ hide "noData" ∷ [],
      )

  unfoldable pub create_int : String → Grid N → Option (Grid N × List (Effect N))
  unfolding insert_buttons insert_item project_fields made delete_item
  create_int user g = do
    old ← (if g.new_exist then some g.rows else delete_item "id_0" g.rows)
    let len = length old
    let first = insert_item 0 (made len "1" (project_fields user)) old
    some (
      record {
        rows = if g.addsave == 0 then insert_buttons len first else first;
        addsave = suc g.addsave;
        new_exist = true;
        active_exist = g.active_exist;
        closed_exist = g.closed_exist;
      },
      set_value "txtSearch" (str "")
          ∷ show "displayGrid"
          ∷ hide "topCrtNewProjBtn"
          ∷ hide "noData"
          ∷ goto_cell 2 project_name_cell false
          ∷ [],
    )

  unfoldable pub dummy_new : Grid N → Grid N
  unfolding insert_item made blank_fields
  dummy_new g = record g {
    rows = insert_item 0 (made (length g.rows) "" blank_fields) g.rows;
    new_exist = true;
  }

  unfoldable pub dummy_active : Grid N → Grid N
  unfolding made group_fields
  dummy_active g =
      let more = g.rows ++ (made (length g.rows) "" (group_fields "Active") ∷ []) in
      record g { rows = if g.active_exist then g.rows else more; active_exist = true }

  unfoldable pub dummy_closed : Grid N → Grid N
  unfolding made group_fields
  dummy_closed g =
      let more = g.rows ++ (made (length g.rows) "" (group_fields "Closed") ∷ []) in
      record g { rows = if g.closed_exist then g.rows else more; closed_exist = true }
