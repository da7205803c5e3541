-- ===== src/Summary.antt =====
-- war/scripts/editProjects.js: the summary of the budget, `getSummaryValues`, and the sums below the
-- groups, `sumTotalsFormatter`. `none` stands for the `TypeError` of a method call on a missing value.
pub mod Selected
mod Tests
use budget_app.Base.{
  ℕ, Bool, true, false, ◌&&◌, not, String, Option, none, some, List, [], ◌∷◌, ◌++◌, ◌==◌,
  if◌then◌else◌, text_eq, concat, eq_fold, ◌>>=◌,
}
use budget_app.Js.{Number, Value, undefined, str, num, bool, Row, parse}
use budget_app.Page.{Effect, set_value, colour}
use budget_app.Views.{select_user_view1}

-- An entry of `obj.budgetMap`.
pub record BudgetSummary (N : Type 0) : Type 0 where
  pub total_budget : N
  pub planned_total : N
  pub budget_left_to_spend : N
  pub accrual_total : N
  pub variance_total : N

abbrev pub BudgetMap : Type 0 → Type 0
BudgetMap N = List (String × BudgetSummary N)

abbrev violet : String → String
violet s = concat "<span style='color:rgb(168, 39, 241)'>" (concat s "</span> ")

module _ {N : Type 0} ⦃n : Number N⦄ where
  abbrev white_yellow_cyan : N → String
  white_yellow_cyan ratio =
      if n.eq ratio (n.of_nat 0)
      then "#FFFFFF"
      else if n.lt ratio (n.of_nat 5)
      then "yellow"
      else "#00FFFF"

  -- `varianceTotal.toFixed(2) / totalBudget.toFixed(2) * 100`
  abbrev pub percentage : BudgetSummary N → N
  percentage v =
      n.mul
        (n.div (n.to_number (n.to_fixed v.variance_total))
          (n.to_number (n.to_fixed v.total_budget)))
        (n.of_nat 100)

  abbrev pub left_to_spend : BudgetSummary N → N
  left_to_spend v =
      n.sub (n.to_number (n.to_fixed v.total_budget)) (n.to_number (n.to_fixed v.planned_total))

  -- What is written for the entry of the selected brand.
  unfoldable pub show_entry : BudgetSummary N → List (Effect N)
  show_entry v =
      let background = white_yellow_cyan (percentage v) in
      set_value "totalBudget" (str (n.to_fixed v.total_budget))
      ∷ set_value "plannedTotal" (str (n.to_fixed v.planned_total))
      ∷ set_value "budgetLeftToSpend" (str (n.to_fixed (left_to_spend v)))
      ∷ set_value "accrualTotal" (str (n.to_fixed v.accrual_total))
      ∷ set_value "varianceTotal" (str (n.to_fixed v.budget_left_to_spend))
      ∷ colour "varTotalLabel" background
      ∷ colour "varTotalText" background
      ∷ []

  -- The loop over the keys.
  unfoldable pub show_entries : String → BudgetMap N → List (Effect N)
  unfolding show_entry
  show_entries selected [] = []
  show_entries selected ((key, v) ∷ es) =
      let later = show_entries selected es in
      if text_eq key selected then show_entry v ++ later else later

  -- `summary` is `summaryResult`, parsed; without one `getBrandTotals` is called, which calls
  -- `selectUserView1`.
  unfoldable pub get_summary_values :
      String → String → String → Option (BudgetMap N) → List (Effect N)
  unfolding show_entries select_user_view1
  get_summary_values view cost selected none = select_user_view1 view cost selected
  get_summary_values view cost selected (some summary) = show_entries selected summary

  -- `((Math.round(parseFloat(val) * 10000) / 10000)).toFixed(2)`
  abbrev rounded : Value N → String
  rounded v = n.to_fixed (n.div (n.round (n.mul (parse v) (n.of_nat 10_000))) (n.of_nat 10_000))

  -- `val`, the sum of a column, or a missing value
  abbrev sum_of : Option (Row N) → ℕ → Value N
  sum_of none field = undefined
  sum_of (some sums) field = sums field

  -- The group's value is asked for `toLowerCase` only in the column of the kinds and for a sum.
  unfoldable pub sum_totals_formatter : Option (Row N) → Value N → ℕ → Option String
  sum_totals_formatter sums (str group) field =
      let sum : String = elim (sum_of sums field) [
        | undefined ↦ ""
        | str s ↦ violet (rounded (str s))
        | num x ↦ violet (rounded (num x))
        | bool b ↦ violet (rounded (bool b))
      ] in
      some (
        if (field == 11) && not (eq_fold group "total")
        then violet "Totals (Forecast)"
        else if eq_fold group "total"
        then ""
        else sum)
  sum_totals_formatter sums group field =
      let without : Option String = elim (sum_of sums field) [
        | undefined ↦ some ""
        | str s ↦ none
        | num x ↦ none
        | bool b ↦ none
      ] in
      if field == 11 then none else without
