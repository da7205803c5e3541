-- ===== src/Edit/Runs.antt =====
-- Runs of `updateMemCache` as a whole.
use budget_app.Base.{
  ℕ, ◌≤◌, ◌<◌, ◌≢◌, ◌⊎◌, ◌∷◌, ◌++◌, length, get_elem?, String, if◌then◌else◌, ◌≡◌, refl, true,
  false, Option, none, some, List, [],
}
use budget_app.Edit.Cells.{Context, is_open, fixed_cell, is_month, is_live, matches, key_of}
use budget_app.Edit.Confirmed.{update-confirmed}
use budget_app.Edit.Loop.{edit_rows, second_part}
use budget_app.Edit.Rows.{copied_field, copy_field, is_text_cell, first_part, copy_name}
use budget_app.Edit.Update.{
  State, Setting, finish, edit_cells, edit_cell, confirm_po, set_field, update_mem_cache,
}
use budget_app.Edit.Kept.{SameRows}
use budget_app.Edit.Kept.Whole.{update_mem_cache-SameRows}
use budget_app.Edit.Amounts.{allocation, percent_of, update-forecast, update-left}
use budget_app.Edit.Left.{IsLiveOf, left_of}
use budget_app.Edit.Month.{IsOf}
use budget_app.Edit.Undivided.{context, IsUndivided}
use budget_app.Edit.Tests.{rows, start, row_of, forecast_row, target_row, accrual_row, left_row}
use budget_app.Months.Total.{IsTotalled, filled}
use budget_app.Constants.{forecast, accrual, quarterly_target, quarterly_lts}
use budget_app.Fixtures.{item_of}
use budget_app.Js.{str, Row, put, parse}
use budget_app.Js.Decimal.{Decimal, decimal_number, decimal_runs}
use budget_app.Page.{Effect, sends}

abbrev declining : Setting
declining = record {
  hidden = false;
  accepted = false;
  tab = false;
  users = [];
  quarter = 0;
  before_cut_off = true;
  total_size = 5;
}

abbrev page : State Decimal
page = record {
  rows = rows;
  popup = record { rows = []; clicked = item_of "id_0" forecast_row; tags = []; users = [] };
  globals = start;
}

abbrev state_of : Option (State Decimal × List (Effect Decimal)) → State Decimal
state_of none = page
state_of (some (s, es)) = s

abbrev effects_of : Option (State Decimal × List (Effect Decimal)) → List (Effect Decimal)
effects_of none = []
effects_of (some (s, es)) = es

abbrev confirming : Setting
confirming = record declining { accepted = true }

after_po : Option (State Decimal × List (Effect Decimal))
after_po = update_mem_cache confirming 3 9 0 page

update-confirmed_example : sends (effects_of after_po) ≡ true
unfolding decimal_runs after_po update_mem_cache confirm_po edit_cell edit_cells finish key_of
    fixed_cell edit_rows second_part first_part copy_field copied_field is_text_cell matches
    is_month copy_name is_live
update-confirmed_example =
    update-confirmed confirming 3 9 0 page (state_of after_po) (effects_of after_po) refl refl

declined_po :
    update_mem_cache declining 3 9 0 page
    ≡ some (
      record page { rows = set_field 0 8 (str "") rows },
      effects_of (update_mem_cache declining 3 9 0 page),
    )
unfolding decimal_runs update_mem_cache confirm_po fixed_cell
declined_po = refl

update_mem_cache-SameRows_example : SameRows page.rows (state_of after_po).rows
unfolding decimal_runs after_po update_mem_cache confirm_po edit_cell edit_cells finish key_of
    fixed_cell edit_rows second_part first_part copy_field copied_field is_text_cell matches
    is_month copy_name is_live
update_mem_cache-SameRows_example =
    update_mem_cache-SameRows confirming 3 9 0 page (state_of after_po) (effects_of after_po) refl

-- 120 has been entered for March in the project's forecast.
abbrev entered_row : Row Decimal
entered_row = put forecast_row 14 (str "120")

abbrev entered_page : State Decimal
entered_page = record page {
  rows = entered_row ∷ target_row ∷ accrual_row ∷ left_row ∷ row_of "308" "308" forecast "10" ∷ [];
}

after_month : Option (State Decimal × List (Effect Decimal))
after_month = update_mem_cache declining 3 14 0 entered_page

entered-IsUndivided : IsUndivided declining 14 0 entered_page entered_row (str "307")
unfolding decimal_runs fixed_cell key_of is_month
entered-IsUndivided = record {
  edited = refl;
  keyed = refl;
  no_remark = refl;
  no_brand = refl;
  whole = refl;
}

abbrev march : Context Decimal
march = context declining (fixed_cell false 14) entered_row (str "307")

entered-IsOf : IsOf march forecast entered_row
unfolding decimal_runs
entered-IsOf = record { own = refl; named = refl }

update-forecast_example :
    (s' : State Decimal) × (effects : List (Effect Decimal)) × (update_mem_cache declining 3 14 0
        entered_page
      ≡ some (s', effects))
    × ((e : Row Decimal) × (get_elem? s'.rows 0 ≡ some e)
        × (e 14 ≡ filled (percent_of (allocation entered_row) (str "120")))
        × IsTotalled e
        × ((j : ℕ) → (j < 12) ⊎ (25 ≤ j) → j ≢ 7 → e j ≡ entered_row j))
unfolding is_month fixed_cell
update-forecast_example =
    update-forecast declining 3 14 0 0 entered_page entered_row entered_row (str "307")
      entered-IsUndivided refl refl entered-IsOf

of_project : (kind amount : String) → IsLiveOf march kind (row_of "307" "307" kind amount)
unfolding decimal_runs is_live
of_project kind amount = record { of_kind = record { own = refl; named = refl }; live = refl }

update-left_example :
    (s' : State Decimal) × (effects : List (Effect Decimal)) × (update_mem_cache declining 3 14 0
        entered_page
      ≡ some (s', effects))
    × ((first rest : List (Row Decimal)) × (t' l' : Row Decimal) × (s'.rows
          ≡ first ++ (t' ∷ accrual_row ∷ l' ∷ rest))
        × (length first ≡ 1)
        × (t' 14 ≡ (
            if is_open march
            then filled (str (decimal_number.to_fixed (parse (str "120"))))
            else target_row 14))
        × (l' 14 ≡ filled (left_of (t' 14) (accrual_row 14)))
        × IsTotalled l')
unfolding is_month fixed_cell
update-left_example =
    update-left declining 3 14 0 entered_page entered_row (str "307") (entered_row ∷ []) target_row
      accrual_row left_row (row_of "308" "308" forecast "10" ∷ []) entered-IsUndivided refl refl
      (of_project quarterly_target "70") (of_project accrual "30") (of_project quarterly_lts "40")
