-- ===== src/Edit/Forecast.antt =====
-- war/scripts/editProjects.js, `updateMemCache`: the forecasts in the loop over the rows, for a
-- month.
use budget_app.Base.{
  ℕ, ◌≤◌, ◌<◌, ◌≡◌, refl, ap, ◌∙◌, ◌⊎◌, inl, inr, true, some, List, get_elem?, ◌≢◌, arith,
}
use budget_app.Constants.{forecast, quarterly_lts}
use budget_app.Edit.Cells.{Context, Globals, is_month}
use budget_app.Edit.Loop.{Edited, edit_rows}
use budget_app.Edit.Rows.{share, with_allocation, forecast_month, lts_month}
use budget_app.Js.{Number, Value, str, Row, put, loose_eq}
use budget_app.Months.Total.{
  IsTotalled, retotal-IsTotalled, retotal-outside, filled, retotal-within,
}
use budget_app.Edit.Month.{first_row, edit_rows-month-at, IsOf, matches-IsOf}

module _ {N : Type 0} ⦃n : Number N⦄ where
  with_allocation-outside : (d : Row N) (i : ℕ) → i ≢ 7 → with_allocation d i ≡ d i
  unfolding with_allocation
  with_allocation-outside d i h = ground arith

  forecast_month-outside :
      (c : Context N) (d : Row N) (i : ℕ)
      → is_month c.cell ≡ true
      → (i < 12) ⊎ (25 ≤ i)
      → i ≢ 7
      → forecast_month c d i ≡ d i
  unfolding forecast_month is_month
  forecast_month-outside c d i h o ne =
      let e = with_allocation d in
      let v = str (share e c.value) in
      retotal-outside (put e c.cell v) i o ∙ apart e v ∙ with_allocation-outside d i ne
    where
      apart : (e : Row N) (v : Value N) → put e c.cell v i ≡ e i
      apart e v = ground arith

  forecast_month-cell :
      (c : Context N) (d : Row N)
      → is_month c.cell ≡ true
      → forecast_month c d c.cell ≡ filled (str (share (with_allocation d) c.value))
  unfolding forecast_month is_month
  forecast_month-cell c d h =
      let e = with_allocation d in
      let v = str (share e c.value) in
      retotal-within (put e c.cell v) c.cell (ground arith) (ground arith) ∙ ap filled (there e v)
    where
      there : (e : Row N) (v : Value N) → put e c.cell v c.cell ≡ v
      there e v = ground arith

  forecast_month-IsTotalled : (c : Context N) (d : Row N) → IsTotalled (forecast_month c d)
  unfolding forecast_month
  forecast_month-IsTotalled c d =
      let e = with_allocation d in retotal-IsTotalled (put e c.cell (str (share e c.value)))

  lts_month-of_forecast :
      (c : Context N) (g : Globals N) (d : Row N) → IsOf c forecast d → lts_month c g d ≡ d
  unfolding lts_month
  lts_month-of_forecast c g d h = rw (matches-IsOf c forecast quarterly_lts d h) refl

  -- When a month is edited, each forecast of the project gets its share of the amount by its
  -- allocation (100 percent if it is zero) in that month, which becomes 0 if it counts as blank; the
  -- year's total is the sum of the row's months; and no field changes but the months, the total and
  -- the allocation.
  pub edit_rows-forecast :
      (c : Context N) (g : Globals N) (ds : List (Row N)) (r : Edited N) (i : ℕ) (d : Row N)
      → is_month c.cell ≡ true
      → edit_rows c g ds ≡ some r
      → get_elem? ds i ≡ some d
      → IsOf c forecast d
      → (e : Row N) × (get_elem? r.rows i ≡ some e)
        × (e c.cell ≡ filled (str (share (with_allocation d) c.value)))
        × IsTotalled e
        × ((j : ℕ) → (j < 12) ⊎ (25 ≤ j) → j ≢ 7 → e j ≡ d j)
  edit_rows-forecast c g ds r i d h er at mine =
      let e = forecast_month c d in
      let (g', found) = edit_rows-month-at c g ds r i d h er at in
      let first : first_row c d ≡ e = rw (matches-IsOf c forecast forecast d mine) refl in
      let same : (j : ℕ) → (j < 12) ⊎ (25 ≤ j) → j ≢ 7 → e j ≡ d j =
        λ j. forecast_month-outside c d j h in
      let still : IsOf c forecast e = record {
        own = ap (λ v. loose_eq c.key v) (same 34 (inr (omega arith)) (omega arith)) ∙ mine.own;
        named = same 11 (inl (omega arith)) (omega arith) ∙ mine.named;
      } in
      (
        e,
        found
            ∙ ap (λ x. some (lts_month c g' x)) first
            ∙ ap some (lts_month-of_forecast c g' e still),
        forecast_month-cell c d h,
        forecast_month-IsTotalled c d,
        same,
      )
