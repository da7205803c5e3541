-- ===== src/Edit/Tests.antt =====
-- Runs of `updateMemCache`, and the theorems on them.
use budget_app.Base.{
  ℕ, ◌≡◌, refl, true, false, String, Option, none, some, List, [], ◌∷◌, ◌++◌, map, length,
  get_elem?, select, if◌then◌else◌, contains,
}
use budget_app.Constants.{forecast, quarterly_target, accrual, quarterly_lts}
use budget_app.Edit.Cells.{Context, Globals, is_month, is_open, is_live, matches}
use budget_app.Edit.Loop.{Edited, edit_rows, second_part}
use budget_app.Edit.Month.{edit_rows-month}
use budget_app.Edit.Remainder.{remainder, store}
use budget_app.Edit.Rows.{
  Change, with_allocation, forecast_month, target_month, copy_field, first_part, note_month,
  copy_name, lts_month,
}
use budget_app.Edit.Shares.{remainder-last}
use budget_app.Fixtures.{fields}
use budget_app.Js.{str, num, bool, Row, put, loose_eq}
use budget_app.Js.Decimal.{Decimal, decimal_number, decimal_runs}
use budget_app.Months.{fill_months, sum_months, year_total, retotal}

abbrev pub row_of : String → String → String → String → Row Decimal
row_of key id kind march = fields (
    (7, str "50")
    ∷ (8, str "7")
    ∷ (11, str kind)
    ∷ (14, str march)
    ∷ (26, str "Active")
    ∷ (27, str id)
    ∷ (34, str key)
    ∷ (37, bool false)
    ∷ [])

abbrev pub forecast_row : Row Decimal
forecast_row = row_of "307" "307" forecast "80"

abbrev pub target_row : Row Decimal
target_row = row_of "307" "307" quarterly_target "70"

abbrev pub accrual_row : Row Decimal
accrual_row = row_of "307" "307" accrual "30"

abbrev pub left_row : Row Decimal
left_row = row_of "307" "307" quarterly_lts "40"

-- The project, and a row of another one.
abbrev pub rows : List (Row Decimal)
rows = forecast_row ∷ target_row ∷ accrual_row ∷ left_row ∷ row_of "308" "308" forecast "10" ∷ []

abbrev pub start : Globals Decimal
start = record {
  forecast_cur = num (decimal_number.of_nat 0);
  accrual_cur = num (decimal_number.of_nat 0);
  target_cur = num (decimal_number.of_nat 0);
}

-- 120 is entered for March, while the first quarter's target can still be changed.
abbrev march : Context Decimal
march = record {
  cell = 14;
  item = put forecast_row 14 (str "120");
  key = str "307";
  value = str "120";
  quarter = 0;
  before_cut_off = true;
}

abbrev edited_of : Option (Edited Decimal) → Edited Decimal
edited_of none = record { rows = []; changes = []; globals = start; ended = true }
edited_of (some r) = r

after_march : Option (Edited Decimal)
after_march = edit_rows march start rows

abbrev edited : Edited Decimal
edited = edited_of after_march

march_rows :
    map (λ d. d 14) edited.rows
    ≡ str "60.00" ∷ str "120.00" ∷ str "30" ∷ num (decimal_number.of_nat 90) ∷ str "10" ∷ []
unfolding decimal_runs after_march edit_rows second_part first_part copy_field matches is_month
    is_open is_live forecast_month with_allocation target_month note_month copy_name lts_month
    retotal year_total fill_months sum_months
march_rows = refl

edit_rows-month_example :
    (r : Edited Decimal) × (edit_rows march start rows ≡ some r)
    × (r.ended ≡ false)
    × (length r.rows ≡ length rows)
    × (map (λ s. s.0) r.changes ≡ map (λ d. d 27) (select (matches march forecast) rows))
unfolding is_month
edit_rows-month_example = edit_rows-month march start rows refl

-- The shares of a project and of its two sub-projects, of which the last has an accrual row too.
abbrev whole : List (Change Decimal)
whole = (str "307", str "100.00") ∷ (str "307.1", str "33.33") ∷ []

abbrev part_rows : List (Row Decimal)
part_rows =
    row_of "307" "307.2" forecast "66.60"
    ∷ row_of "307" "307.2" accrual "12"
    ∷ row_of "307" "307.1" forecast "33.33"
    ∷ []

abbrev settled_rows : List (Row Decimal)
settled_rows =
    put (row_of "307" "307.2" forecast "66.60") 14 (str "66.67")
    ∷ put (row_of "307" "307.2" accrual "12") 14 (str "66.67")
    ∷ row_of "307" "307.1" forecast "33.33"
    ∷ []

remainder-last_example :
    (whole ++ ((str "307.2", str "66.67") ∷ []) ≡ whole ++ ((str "307.2", str "66.67") ∷ []))
    × ((i : ℕ) (d : Row Decimal)
        → get_elem? part_rows i ≡ some d
        → get_elem? settled_rows i
          ≡ some (if loose_eq (d 27) (str "307.2") then put d 14 (str "66.67") else d))
unfolding decimal_runs remainder store contains
remainder-last_example =
    remainder-last 14 (num (decimal_number.of_nat 0)) (num (decimal_number.of_nat 0)) whole
      (str "307.2") (str "66.66") part_rows (whole ++ ((str "307.2", str "66.67") ∷ []))
      settled_rows refl refl
