-- ===== src/Export/Sheet.antt =====
-- The rows of the sheet, and the request for it. The current month, from 1 on, the choices in the
-- window and the printing of the rows as JSON are arguments.
use budget_app.Base.{
  ℕ, zero, suc, ◌+◌, ◌*◌, Bool, true, false, ◌&&◌, not, String, Option, some, List, [], ◌∷◌, ◌++◌,
  replicate, ltb, if◌then◌else◌, text_eq, trim, ◌>>=◌,
}
use budget_app.Constants.{forecast}
use budget_app.Js.{Number, Value, undefined, str, Row, to_string?, loose_eq}
use budget_app.Page.{Item, Effect, alert, submit, set_value}
use budget_app.Views.{close_popup}

-- Whether a month has actual figures: `month > k ? "Actual" : "Forecast"`, for `count` months from
-- `k` on.
unfoldable pub month_labels : {N : Type 0} → ℕ → ℕ → ℕ → List (Value N)
month_labels month zero k = []
month_labels month (suc count) k =
    str (if ltb k month then "Actual" else forecast) ∷ month_labels month count (k + 1)

unfoldable pub first_heading : {N : Type 0} → ℕ → List (Value N)
unfolding month_labels
first_heading month =
    replicate 9 (str "")
    ++ month_labels month 12 0
    ++ (str "FY" ∷ str "FY" ∷ str "FY" ∷ str "Check" ∷ str "Q3-Q4" ∷ [])

unfoldable pub second_heading : {N : Type 0} → List (Value N)
second_heading =
    str "Project WBS"
    ∷ str "WBS Name"
    ∷ str "Sub Activity"
    ∷ str "Brand"
    ∷ str "Allocation %"
    ∷ str "PO Number"
    ∷ str "PO Description"
    ∷ str "Vendor"
    ∷ str "Requestor"
    ∷ str "Jan"
    ∷ str "Feb"
    ∷ str "Mar"
    ∷ str "Apr"
    ∷ str "May"
    ∷ str "Jun"
    ∷ str "Jul"
    ∷ str "Aug"
    ∷ str "Sep"
    ∷ str "Oct"
    ∷ str "Nov"
    ∷ str "Dec"
    ∷ str "Total"
    ∷ str "Unit"
    ∷ str "PO Total"
    ∷ str "LTS"
    ∷ str forecast
    ∷ []

unfoldable pub month_values : {N : Type 0} → Row N → ℕ → ℕ → List (Value N)
month_values d zero j = []
month_values d (suc count) j = d j ∷ month_values d count (j + 1)

unfoldable pub sheet_row : {N : Type 0} → Row N → List (Value N)
unfolding month_values
sheet_row d =
    d 3 ∷ str "" ∷ d 5 ∷ d 6 ∷ d 7 ∷ d 8 ∷ str "" ∷ d 10 ∷ d 1 ∷ month_values d 12 12
    ++ (d 24 ∷ str "" ∷ d 24 ∷ str "" ∷ str "" ∷ [])

module _ {N : Type 0} ⦃n : Number N⦄ where
  -- Whether the row has an identifier and is a forecast.
  unfoldable pub is_exported : Row N → Option Bool
  is_exported d = do
    id ← to_string? (d 0)
    some (not (text_eq (trim id) "") && loose_eq (d 11) (str forecast))

  unfoldable pub sheet_rows : List (Row N) → Option (List (List (Value N)))
  unfolding is_exported sheet_row
  sheet_rows [] = some []
  sheet_rows (d ∷ ds) = do
    chosen ← is_exported d
    rest ← sheet_rows ds
    some (if chosen then sheet_row d ∷ rest else rest)

  unfoldable pub modify_data : ℕ → List (Row N) → Option (List (List (Value N)))
  unfolding sheet_rows first_heading second_heading
  modify_data month ds = do rest ← sheet_rows ds; some (first_heading month ∷ second_heading ∷ rest)

  -- `d[0] != null && d[0] != ''`
  unfoldable pub has_id : Value N → Bool
  has_id undefined = false
  has_id v = not (loose_eq v (str ""))

  unfoldable pub has_projects : List (Item N) → Bool
  unfolding has_id
  has_projects [] = false
  has_projects (d ∷ ds) = let rest = has_projects ds in if has_id (d.cells 0) then true else rest

  -- One form for each cost center, each 3.5 seconds after the last: the delays in milliseconds with
  -- what is done then.
  unfoldable pub downloads : ℕ → String → String → List String → List (ℕ × List (Effect N))
  downloads k view brand [] = []
  downloads k view brand (cost ∷ costs) =
      (
        3500 * k,
        set_value "objArrayId" (str "")
            ∷ set_value "ccId" (str cost)
            ∷ set_value "viewSelected" (str view)
            ∷ set_value "brandSelected" (str brand)
            ∷ submit "exportExcel"
            ∷ [],
      )
      ∷ downloads (k + 1) view brand costs

  -- The effects now and those to come; `all_centers` is the choice of all cost centers.
  unfoldable pub export_excel_data :
      (List (Item N) → String)
      → Bool
      → String
      → String
      → String
      → List String
      → List (Item N)
      → List (Effect N) × List (ℕ × List (Effect N))
  unfolding downloads has_projects
  export_excel_data json all_centers view cost brand costs grid =
      if all_centers
      then (close_popup, downloads 1 view brand costs)
      else if has_projects grid
      then (
        set_value "objArrayId" (str (json grid))
            ∷ set_value "ccId" (str cost)
            ∷ submit "exportExcel"
            ∷ close_popup,
        [],
      )
      else (alert "No data to export !!!" ∷ [], [])
