-- ===== src/Months.antt =====
-- The twelve months of a row, fields 12 to 23, and their total. The same loop stands in
-- `updateMemCache` three times and in `submitProjects`.
pub mod Total
use budget_app.Base.{ℕ, zero, suc, ◌+◌, if◌then◌else◌}
use budget_app.Js.{Number, Row, num, put, is_blank, parse}

module _ {N : Type 0} ⦃n : Number N⦄ where
  -- `count` fields from `j` on: a blank one becomes zero.
  unfoldable pub fill_months : ℕ → ℕ → Row N → Row N
  fill_months zero j d = d
  fill_months (suc count) j d =
      fill_months count (j + 1) (if is_blank (d j) then put d j (num (n.of_nat 0)) else d)

  -- Their sum, added to `acc`.
  unfoldable pub sum_months : ℕ → ℕ → N → Row N → N
  sum_months zero j acc d = acc
  sum_months (suc count) j acc d =
      sum_months count (j + 1) (n.add (parse (num acc)) (parse (d j))) d

  -- The year's total of a row.
  unfoldable pub year_total : Row N → N
  unfolding sum_months
  year_total d = sum_months 12 12 (n.of_nat 0) d

  -- Blank months are filled and field 24 gets the total.
  unfoldable pub retotal : Row N → Row N
  unfolding fill_months year_total
  retotal d = let e = fill_months 12 12 d in put e 24 (num (parse (num (year_total e))))
