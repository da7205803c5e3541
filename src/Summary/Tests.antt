-- ===== src/Summary/Tests.antt =====
-- A summary of two brands, and sums below a group.
use budget_app.Base.{◌≡◌, refl, none, some, [], ◌∷◌, String, map, eq_fold}
use budget_app.Base.Order.{has_twins, sort, has_twins-sort_iff}
use budget_app.Fixtures.{fields}
use budget_app.Js.{str, num}
use budget_app.Js.Decimal.{Decimal, decimal_number, decimal_runs, parse_float}
use budget_app.Page.{set_value, colour}
use budget_app.Summary.{
  BudgetSummary, BudgetMap, show_entry, show_entries, get_summary_values, sum_totals_formatter,
}
use budget_app.Summary.Selected.{entry_of, ShowsEntry, get_summary_values-entry_of}

abbrev summary_of : String → String → BudgetSummary Decimal
summary_of budget variance = record {
  total_budget = parse_float budget;
  planned_total = parse_float "30";
  budget_left_to_spend = parse_float "70";
  accrual_total = parse_float "20";
  variance_total = parse_float variance;
}

abbrev brands : BudgetMap Decimal
brands = ("Avastin", summary_of "100" "4") ∷ ("Rituxan", summary_of "0" "0") ∷ []

-- A budget of zero is shown in cyan although there is no variance.
shown_runs :
    (get_summary_values "" "" "Avastin" (some brands)
      ≡ set_value "totalBudget" (str "100.00")
        ∷ set_value "plannedTotal" (str "30.00")
        ∷ set_value "budgetLeftToSpend" (str "70.00")
        ∷ set_value "accrualTotal" (str "20.00")
        ∷ set_value "varianceTotal" (str "70.00")
        ∷ colour "varTotalLabel" "yellow"
        ∷ colour "varTotalText" "yellow"
        ∷ [])
    × (get_summary_values "" "" "Rituxan" (some brands)
        ≡ set_value "totalBudget" (str "0.00")
          ∷ set_value "plannedTotal" (str "30.00")
          ∷ set_value "budgetLeftToSpend" (str "-30.00")
          ∷ set_value "accrualTotal" (str "20.00")
          ∷ set_value "varianceTotal" (str "70.00")
          ∷ colour "varTotalLabel" "#00FFFF"
          ∷ colour "varTotalText" "#00FFFF"
          ∷ [])
unfolding decimal_runs get_summary_values show_entries show_entry
shown_runs = (refl, refl)

sum_runs :
    (sum_totals_formatter (some (fields ((12, num (parse_float "12.34567")) ∷ []))) (str "New") 12
      ≡ some "<span style='color:rgb(168, 39, 241)'>12.35</span> ")
    × (sum_totals_formatter {N = Decimal} none (str "Total") 12 ≡ some "")
unfolding decimal_runs sum_totals_formatter eq_fold
sum_runs = (refl, refl)

get_summary_values-entry_of_example :
    ShowsEntry (entry_of "Avastin" brands) (get_summary_values "" "" "Avastin" (some brands))
unfolding has_twins sort
get_summary_values-entry_of_example =
    get_summary_values-entry_of "" "" "Avastin" brands
      ((has_twins-sort_iff (map (λ e. e.0) brands)).0 refl)
