-- ===== src/Edit/Amounts.antt =====
-- war/scripts/editProjects.js, `updateMemCache`: what an edit of a month leaves in the rows of the project,
-- where nothing is shared out after the loop.
use budget_app.Base.{
  refl, false, ◌==◌, ℕ, ◌≤◌, ◌<◌, ◌≡◌, ◌≢◌, ap, ◌∙◌, subst, ◌⊎◌, true, some, List, ◌∷◌, ◌++◌,
  length, get_elem?, arith, if◌then◌else◌,
}
use budget_app.Constants.{po_number_cell, forecast, accrual, quarterly_target, quarterly_lts}
use budget_app.Edit.Cells.{fixed_cell, is_month, is_open}
use budget_app.Edit.Forecast.{edit_rows-forecast}
use budget_app.Edit.Left.{IsLiveOf, left_of, edit_rows-left-after}
use budget_app.Edit.Loop.{Edited, edit_rows}
use budget_app.Edit.Month.{IsOf, edit_rows-month}
use budget_app.Edit.Rows.{with_allocation, share}
use budget_app.Edit.Undivided.{context, IsUndivided}
use budget_app.Edit.Update.{
  State, Setting, auto_save, finish, edit_cells, edit_cell, confirm_po, update_mem_cache,
}
use budget_app.Js.{Number, Value, str, num, Row, loose_eq, parse}
use budget_app.Months.Total.{IsTotalled, filled}
use budget_app.Page.{Effect}

month-no_po : (cell : ℕ) → is_month cell ≡ true → (cell == po_number_cell) ≡ false
unfolding is_month
month-no_po cell h = ground arith

module _ {N : Type 0} ⦃n : Number N⦄ where
  -- The allocation of a forecast in percent, 100 if it is zero.
  abbrev pub allocation : Row N → Value N
  allocation d = if loose_eq (d 7) (num (n.of_nat 0)) then num (n.of_nat 100) else d 7

  -- An amount in percent, with two decimals.
  abbrev pub percent_of : Value N → Value N → Value N
  percent_of p v = str (n.to_fixed (parse (num (n.div (n.mul (parse p) (parse v)) (n.of_nat 100)))))

  with_allocation-7 : (d : Row N) → with_allocation d 7 ≡ allocation d
  unfolding with_allocation
  with_allocation-7 d = ground arith

  share-percent_of :
      (d : Row N) (v : Value N) → str (share (with_allocation d) v) ≡ percent_of (allocation d) v
  share-percent_of d v =
      ap (λ p. str (n.to_fixed (parse (num (n.div (n.mul (parse p) (parse v)) (n.of_nat 100))))))
        (with_allocation-7 d)

  -- An edit of a month always ends, with the rows that the loop leaves.
  month-edit_rows :
      (set : Setting) (row cell at : ℕ) (s : State N) (item : Row N) (key : Value N)
      → let fixed = fixed_cell set.hidden cell in
        IsUndivided set cell at s item key
        → is_month fixed ≡ true
        → (s' : State N) × (effects : List (Effect N)) × (update_mem_cache set row cell at s
            ≡ some (s', effects))
          × ((r : Edited N) × (edit_rows (context set fixed item key) s.globals s.rows ≡ some r)
              × (s'.rows ≡ r.rows))
  unfolding update_mem_cache confirm_po edit_cell edit_cells finish
  month-edit_rows set row cell at s item key u m =
      let fixed = fixed_cell set.hidden cell in
      let (r, hr, going_on, _, _) =
        edit_rows-month (context set fixed item key) s.globals s.rows m in
      let no_po = month-no_po fixed m in
      (
        record s { rows = r.rows; globals = r.globals },
        auto_save fixed item r.changes,
        rw (u.edited, no_po, u.keyed, u.no_remark, u.no_brand, hr, going_on, u.whole) refl,
        (r, hr, refl),
      )

  -- An edit of a month of a row that is no forecast of a divided project ends without an exception, and
  -- each forecast of the project gets its allocation of the amount in that month, in percent, where zero
  -- counts as 100; a month that counts as blank becomes 0; the year's total is the sum of the row's
  -- months; and no field changes but the months, the total and the allocation.
  pub update-forecast :
      (set : Setting) (row cell at i : ℕ) (s : State N) (item d : Row N) (key : Value N)
      → let fixed = fixed_cell set.hidden cell in
        IsUndivided set cell at s item key
        → is_month fixed ≡ true
        → get_elem? s.rows i ≡ some d
        → IsOf (context set fixed item key) forecast d
        → (s' : State N) × (effects : List (Effect N)) × (update_mem_cache set row cell at s
            ≡ some (s', effects))
          × ((e : Row N) × (get_elem? s'.rows i ≡ some e)
              × (e fixed ≡ filled (percent_of (allocation d) (item fixed)))
              × IsTotalled e
              × ((j : ℕ) → (j < 12) ⊎ (25 ≤ j) → j ≢ 7 → e j ≡ d j))
  update-forecast set row cell at i s item d key u m there mine =
      let fixed = fixed_cell set.hidden cell in
      let (s', effects, ends, (r, hr, same)) = month-edit_rows set row cell at s item key u m in
      let (e, at_i, cell_e, total, others) =
        edit_rows-forecast (context set fixed item key) s.globals s.rows r i d m hr there mine in
      (
        s',
        effects,
        ends,
        (
          e,
          ap (λ ds. get_elem? ds i) same ∙ at_i,
          cell_e ∙ ap filled (share-percent_of d (item fixed)),
          total,
          others,
        ),
      )

  -- An edit of a month of a row that is no forecast of a divided project, where the live project's
  -- target, accrual and left-to-spend rows stand one after the other, ends without an exception; the
  -- target becomes the entered amount, rounded, if its quarter is open and stays otherwise; the accrual
  -- stays; what is left is the target less the accrual, as they now stand; and the total of the row of
  -- what is left is the sum of its months. A month that counts as blank becomes 0.
  pub update-left :
      (set : Setting) (row cell at : ℕ) (s : State N) (item : Row N) (key : Value N)
      (before : List (Row N)) (t a l : Row N) (ds : List (Row N))
      → let fixed = fixed_cell set.hidden cell in
        let c = context set fixed item key in
        IsUndivided set cell at s item key
        → is_month fixed ≡ true
        → s.rows ≡ before ++ (t ∷ a ∷ l ∷ ds)
        → IsLiveOf c quarterly_target t
        → IsLiveOf c accrual a
        → IsLiveOf c quarterly_lts l
        → (s' : State N) × (effects : List (Effect N)) × (update_mem_cache set row cell at s
            ≡ some (s', effects))
          × ((first rest : List (Row N)) × (t' l' : Row N) × (s'.rows
                ≡ first ++ (t' ∷ a ∷ l' ∷ rest))
              × (length first ≡ length before)
              × (t' fixed
                  ≡ (if is_open c then filled (str (n.to_fixed (parse (item fixed)))) else t fixed))
              × (l' fixed ≡ filled (left_of (t' fixed) (a fixed)))
              × IsTotalled l')
  update-left set row cell at s item key before t a l ds u m split_rows ht ha hl =
      let c = context set (fixed_cell set.hidden cell) item key in
      let (s', effects, ends, (r, hr, same)) = month-edit_rows set row cell at s item key u m in
      let loop = subst (λ rs. edit_rows c s.globals rs ≡ some r) split_rows hr in
      let (first, rest, t', l', all, count, aimed, left, total) =
        edit_rows-left-after c s.globals before t a l ds r m ht ha hl loop in
      (s', effects, ends, (first, rest, t', l', same ∙ all, count, aimed, left, total))
