-- ===== src/Edit/Rows.antt =====
-- One turn of the loop over the rows.
use budget_app.Base.{
  ℕ, Bool, ◌&&◌, ◌||◌, String, Option, none, some, List, [], ◌∷◌, ◌==◌, if◌then◌else◌, text_eq,
  concat, after_colons, ◌>>=◌,
}
use budget_app.Constants.{
  project_name_cell, project_wbs_cell, subactivity_cell, po_number_cell, vendor_cell, unit_cell,
  project_name_field, project_wbs_field, subactivity_field, po_number_field, vendor_field,
  unit_field, project_name_search_field, project_name_gid_field, forecast, accrual,
  quarterly_target, quarterly_lts,
}
use budget_app.Edit.Cells.{Context, Globals, is_month, is_open, is_live, matches}
use budget_app.Js.{Number, Value, str, num, Row, put, to_string, trim?, as_number, loose_eq, parse}
use budget_app.Months.{retotal}

-- An element of `aSaveData`: the identifier of a row and the value to store.
abbrev pub Change : Type 0 → Type 0
Change N = Value N × Value N

-- What the first part of a turn does: it goes on, or shows the alert and ends the edit.
pub data Turn (N : Type 0) : Type 0 where
  going : Row N → List (Change N) → Turn N
  halted : Row N → Turn N

-- The field that a cell of text shows.
unfoldable pub copied_field : ℕ → Option ℕ
copied_field cell =
    if cell == vendor_cell
    then some vendor_field
    else if cell == subactivity_cell
    then some subactivity_field
    else if cell == project_wbs_cell
    then some project_wbs_field
    else if cell == po_number_cell
    then some po_number_field
    else if cell == unit_cell
    then some unit_field
    else none

unfoldable pub is_text_cell : ℕ → Bool
is_text_cell cell =
    cell == project_name_cell
    || cell == po_number_cell
    || cell == project_wbs_cell
    || cell == subactivity_cell
    || cell == vendor_cell
    || cell == unit_cell

-- The text between two colons, as a text is joined to it.
abbrev pub printed : Option String → String
printed none = "undefined"
printed (some s) = s

module _ {N : Type 0} ⦃n : Number N⦄ where
  -- A forecast's share of the entered amount, by its allocation in percent.
  abbrev pub share : Row N → Value N → String
  share d v = n.to_fixed (parse (num (n.div (n.mul (parse (d 7)) (parse v)) (n.of_nat 100))))

  -- No allocation counts as the whole.
  unfoldable pub with_allocation : Row N → Row N
  with_allocation d = if loose_eq (d 7) (num (n.of_nat 0)) then put d 7 (num (n.of_nat 100)) else d

  -- A month of a forecast.
  unfoldable pub forecast_month : Context N → Row N → Row N
  unfolding with_allocation
  forecast_month c d = let e = with_allocation d in retotal (put e c.cell (str (share e c.value)))

  -- The project's name, which is not to be blank.
  unfoldable pub rename : Context N → Row N → Option (Turn N)
  rename c d =
      let name = c.item project_name_field in
      let e = put d project_name_field name in
      let bad : Option (Turn N) =
        some (halted (put d project_name_field (d project_name_search_field))) in
      let good : Option (Turn N) = some (going e ((d 27, name) ∷ [])) in
      if loose_eq name (str "undefined")
      then bad
      else trim? name >>= λ s. if text_eq s "" then bad else good

  -- Another text of a forecast, copied from the edited row.
  unfoldable pub copy_field : Context N → Row N → Option (Turn N)
  unfolding rename copied_field
  copy_field c d = elim (copied_field c.cell) [
    | some f ↦ some (going (put d f (c.item f)) ((d 27, c.item f) ∷ []))
    | none ↦ rename c d
  ]

  -- A month of a quarterly target.
  unfoldable pub target_month : Context N → Row N → Row N
  target_month c d = retotal (put d c.cell (str (n.to_fixed (parse c.value))))

  -- The three exclusive cases of a turn.
  unfoldable pub first_part : Context N → Row N → Option (Turn N)
  unfolding forecast_month copy_field target_month
  first_part c d =
      let e = forecast_month c d in
      if matches c forecast d && is_month c.cell
      then some (going e ((d 27, e c.cell) ∷ []))
      else if matches c forecast d && is_text_cell c.cell
      then copy_field c d
      else if matches c quarterly_target d && is_month c.cell && is_live d && is_open c
      then some (going (target_month c d) [])
      else some (going d [])

  -- The globals, from the row before the first part and after it.
  unfoldable pub note_month : Context N → Row N → Row N → Globals N → Globals N
  note_month c d e g = record {
    forecast_cur = if matches c forecast d && is_month c.cell then d c.cell else g.forecast_cur;
    target_cur =
        if matches c quarterly_target e && is_month c.cell && is_live e
        then e c.cell
        else g.target_cur;
    accrual_cur =
        if matches c accrual e && is_month c.cell && is_live e then e c.cell else g.accrual_cur;
  }

  -- `name + " :: " + d[42].split("::")[1]`
  unfoldable pub labelled : Value N → Value N → Option (Value N)
  labelled name (str s) =
      some (str (concat (to_string name) (concat " :: " (printed (after_colons s)))))
  labelled name v = none

  -- The copies of a live project's name.
  unfoldable pub copy_name : Context N → Row N → Option (Row N)
  unfolding labelled
  copy_name c d =
      let name = c.item project_name_field in
      let e = put d project_name_search_field name in
      let copied = do
        label ← labelled name (d project_name_gid_field)
        some (put e project_name_gid_field label)
      in if loose_eq c.key (d 34) && (c.cell == project_name_cell) && is_live d
        then copied
        else some d

  -- A month of what is left to spend: the target less the accrual.
  unfoldable pub lts_month : Context N → Globals N → Row N → Row N
  lts_month c g d =
      let left = n.sub (as_number g.target_cur) (as_number g.accrual_cur) in
      let e = retotal (put d c.cell (num (parse (num left)))) in
      if matches c quarterly_lts d && is_month c.cell && is_live d then e else d
