-- ===== src/Formatters/Tests.antt =====
-- Cells as they are drawn.
use budget_app.Base.{◌≡◌, refl, some, [], ◌∷◌, arith, ltb, if◌then◌else◌, contains}
use budget_app.Constants.{forecast, quarterly_target}
use budget_app.Fixtures.{fields}
use budget_app.Formatters.Amounts.{has_point?, plain, shaded, is_among, by_month, dollar}
use budget_app.Formatters.Links.{cancel_button, titled}
use budget_app.Formatters.Shading.{IsOpen, dollar-by_month}
use budget_app.Js.{Value, str, Row}
use budget_app.Js.Decimal.{Decimal, decimal_number, decimal_runs}

abbrev open_row : Row Decimal
open_row =
    fields ((0, str "307") ∷ (11, str forecast) ∷ (26, str "Active") ∷ (35, str "Projects") ∷ [])

open_row-IsOpen : IsOpen open_row
unfolding decimal_runs has_point? contains
open_row-IsOpen = record {
  no_buttons = refl;
  entered = refl;
  no_total = refl;
  not_closed = refl;
  of_forecast = refl;
  undivided = refl;
}

abbrev amount : Value Decimal
amount = str "12.5"

-- In October, whose number is 9, November can be changed.
dollar-by_month_example :
    dollar 9 "NOV" open_row amount ≡ some (str (if ltb 10 9 then plain amount else shaded amount))
dollar-by_month_example =
    dollar-by_month 9 10 "NOV" open_row amount refl (omega arith) open_row-IsOpen

drawn :
    (dollar 9 "NOV" open_row amount
      ≡ some (
          str
            "<div width = '100%' style='background:#C0CCED'><span style='color:#2271B0'> 12.50</span></div>"))
    × (dollar 9 "FEB" open_row amount ≡ some (str "<span style='color:#2271B0'> 12.50</span>"))
    × (cancel_button open_row (str quarterly_target)
        ≡ str "<span title='Benchmarks for current quarter'>Quarterly Target</span>")
unfolding decimal_runs dollar by_month is_among plain shaded has_point? contains cancel_button
    titled
drawn = (refl, refl, refl)
