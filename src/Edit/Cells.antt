-- ===== src/Edit/Cells.antt =====
-- Which cell is edited, which project it belongs to, and whether a row takes part in the edit.
use budget_app.Base.{
  ℕ, ◌+◌, ◌-◌, ◌/◌, Bool, true, ◌&&◌, ◌||◌, not, String, Option, some, leb, ◌==◌, if◌then◌else◌,
  contains, ◌>>=◌,
}
use budget_app.Constants.{project_owner_cell, jan_cell, dec_cell, number_of_hidden_columns, accrual}
use budget_app.Js.{Number, Value, str, bool, Row, to_string?, loose_eq}

-- What the edit's loop over the rows reads: the number of the cell among all columns, the edited row,
-- `key`, `cellValue`, the current quarter and whether its cut-off date is still to come.
pub record Context (N : Type 0) : Type 0 where
  pub cell : ℕ
  pub item : Row N
  pub key : Value N
  pub value : Value N
  pub quarter : ℕ
  pub before_cut_off : Bool

-- `forecast_cur`, `accrual_cur` and `quarterly_tar_cur`, which outlive an edit.
pub record Globals (N : Type 0) : Type 0 where
  pub forecast_cur : Value N
  pub accrual_cur : Value N
  pub target_cur : Value N

-- `fixedCell`: the hidden columns are counted, but for the cells before them.
unfoldable pub fixed_cell : Bool → ℕ → ℕ
fixed_cell hidden cell =
    if leb cell project_owner_cell
    then cell
    else if hidden
    then cell + number_of_hidden_columns
    else cell

unfoldable pub is_month : ℕ → Bool
is_month cell = leb jan_cell cell && leb cell dec_cell

-- Whether the quarterly target of the cell's quarter may be changed.
unfoldable pub is_open : {N : Type 0} → Context N → Bool
is_open c =
    let editing = (c.cell - 12) / 3 in
    not (editing == c.quarter) || ((editing == c.quarter) && c.before_cut_off)

module _ {N : Type 0} ⦃n : Number N⦄ where
  unfoldable pub is_live : Row N → Bool
  is_live d = loose_eq (d 26) (str "New") || loose_eq (d 26) (str "Active")

  -- Whether the row belongs to the edited project and is of the kind.
  unfoldable pub matches : Context N → String → Row N → Bool
  matches c kind d = loose_eq c.key (d 34) && loose_eq (d 11) (str kind)

  -- `key`
  unfoldable pub key_of : Row N → Option (Value N)
  key_of item =
      let dotted = do s ← to_string? (item 27); some (if contains s "." then item 27 else item 34)
      in if loose_eq (item 37) (bool true) && loose_eq (item 11) (str accrual)
        then dotted
        else some (item 34)
