-- ===== src/Totals/Tests.antt =====
-- Totals of a few rows.
use budget_app.Base.{
  arith, ℕ, ◌≡◌, ◌≤◌, ◌<◌, refl, true, Option, none, some, List, [], ◌∷◌, map, contains, trim,
  split,
}
use budget_app.Fixtures.{amounts}
use budget_app.Js.{str, num, Row, parse}
use budget_app.Js.Decimal.{Decimal, decimal_number, decimal_runs}
use budget_app.Page.{Effect}
use budget_app.Totals.{
  Entries, Totals, id_of, kind_of, is_counted, next_project, found, find_totals, add_entry,
  add_entries, set_left, calculate_total,
}
use budget_app.Totals.Sums.{of_forecasts, entered, sum_from}
use budget_app.Totals.Counted.{calculate_total-sum_from}
use budget_app.Totals.Left.{calculate_total-left}

-- Project 123 with a part, and project 1234.
abbrev entries : Entries Decimal
entries =
    ("T:Forecast", amounts "Total" "0")
    ∷ ("T:Accrual", amounts "Total" "0")
    ∷ ("T:Quarterly Target", amounts "Total" "0")
    ∷ ("T:Quarterly LTS", amounts "Total" "0")
    ∷ ("123:Forecast", amounts "Active" "5")
    ∷ ("123:Quarterly Target", amounts "Active" "9")
    ∷ ("123:Accrual", amounts "Active" "2")
    ∷ ("123.1:Forecast", amounts "Active" "3")
    ∷ ("1234:Forecast", amounts "Active" "7")
    ∷ ("200:Forecast", amounts "Active" "20")
    ∷ []

abbrev totals_of : Option (Totals Decimal × List (Effect Decimal)) → Totals Decimal
totals_of none = record { forecasts = none; accruals = none; targets = none; left = none }
totals_of (some (t, es)) = t

abbrev effects_of : Option (Totals Decimal × List (Effect Decimal)) → List (Effect Decimal)
effects_of none = []
effects_of (some (t, es)) = es

calculated : Option (Totals Decimal × List (Effect Decimal))
calculated = calculate_total true entries

calculate_total-left_example :
    (l q a : Row Decimal) × ((totals_of calculated).left ≡ some l)
    × ((totals_of calculated).targets ≡ some q)
    × ((totals_of calculated).accruals ≡ some a)
    × ((i : ℕ) → 12 ≤ i → i < 25 → l i ≡ num (decimal_number.sub (parse (q i)) (parse (a i))))
unfolding decimal_runs calculated calculate_total find_totals found kind_of id_of is_counted
    next_project add_entry add_entries set_left split contains trim
calculate_total-left_example =
    calculate_total-left entries (totals_of calculated) (effects_of calculated) refl

-- Project 1234 is left out after project 123, whose identifier occurs in its own.
left_out : map (λ d. d 14) (entered of_forecasts "" entries) ≡ str "5" ∷ str "20" ∷ []
unfolding decimal_runs split contains trim
left_out = refl

abbrev row_in : Option (Row Decimal) → Row Decimal
row_in none = amounts "Total" "0"
row_in (some d) = d

calculate_total-sum_from_example :
    row_in (totals_of calculated).forecasts 14
    ≡ sum_from 14 (num (decimal_number.of_nat 0)) (entered of_forecasts "" entries)
unfolding decimal_runs calculated calculate_total find_totals found kind_of id_of is_counted
    next_project add_entry add_entries set_left split contains trim
calculate_total-sum_from_example =
    calculate_total-sum_from true entries (totals_of calculated) (effects_of calculated)
      of_forecasts (row_in (totals_of calculated).forecasts) 14 refl refl (omega arith)
      (omega arith)
