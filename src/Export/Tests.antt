-- ===== src/Export/Tests.antt =====
-- Downloads of a few rows.
use budget_app.Base.{
  comma_join, ◌≡◌, refl, true, String, some, List, [], ◌∷◌, map, length, All, select, concat,
}
use budget_app.Constants.{forecast, accrual}
use budget_app.Export.Csv.{
  Record, label_row, label_loop, quoted, value_loop, csv_rows, csv, json_to_excel, file_name,
  padded, underscored,
}
use budget_app.Export.Lines.{csv-lines}
use budget_app.Export.Shape.{columns, row_under, has_sheet_row, modify_data-rectangle}
use budget_app.Export.Sheet.{
  first_heading, second_heading, sheet_row, sheet_rows, is_exported, modify_data,
}
use budget_app.Fixtures.{fields}
use budget_app.Js.{Value, str, Row}
use budget_app.Js.Decimal.{Decimal, decimal_number, decimal_runs}
use budget_app.Popup.Checks.{inner}

abbrev project : String → Row Decimal
project kind = fields ((0, str "307") ∷ (11, str kind) ∷ (24, str "12") ∷ [])

abbrev projects : List (Row Decimal)
projects = project forecast ∷ project accrual ∷ []

abbrev sheet : List (List (Value Decimal))
sheet = first_heading 10 ∷ second_heading ∷ sheet_row (project forecast) ∷ []

modify_data-rectangle_example :
    (sheet
      ≡ first_heading 10
        ∷ map (λ c. str c.0) columns
        ∷ map row_under (select has_sheet_row projects))
    × All (λ r. length r ≡ 26) sheet
unfolding decimal_runs modify_data sheet_rows is_exported
modify_data-rectangle_example = modify_data-rectangle 10 projects sheet refl

abbrev record_of : String → Record Decimal
record_of id = ("id", str id) ∷ ("brand", str "Avastin") ∷ []

csv-lines_example :
    let r = record_of "307" in
    (label_row (r ∷ []) ≡ comma_join (map (λ g. g.0) r))
    × (csv_rows (r ∷ [])
        ≡ concat
            (concat (comma_join (map (λ g. quoted g.1) r)) ",")
            (concat "\r\n" (csv_rows {N = Decimal} [])))
csv-lines_example = csv-lines ("id", str "307") (("brand", str "Avastin") ∷ []) []

downloaded :
    json_to_excel true "My Projects" 3 14 2016 9 5 7 (record_of "307" ∷ [])
    ≡ some ("My_Projects_Report_03_14_2016_9_5_7.csv", "id,brand\r\n\"307\",\"Avastin\",\r\n")
unfolding decimal_runs json_to_excel csv csv_rows label_row label_loop inner value_loop file_name
    padded underscored
downloaded = refl
