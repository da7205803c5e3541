-- ===== src/Export/Shape.antt =====
-- war/scripts/editProjects.js, `modifyData`: what stands in the cells of the sheet.
use mathlib.Core.Option.{some-injective}
use budget_app.Base.{
  ℕ, ◌≡◌, refl, sym, ap, ◌∙◌, inl, inr, Bool, ◌&&◌, not, String, Option, none, some, List, [], ◌∷◌,
  map, select, length, All, text_eq, trim, Bool-cases, >>=-eq-some,
}
use budget_app.Js.{Number, Value, undefined, str, num, bool, Row, to_string, to_string?, loose_eq}
use budget_app.Export.Sheet.{
  month_labels, first_heading, second_heading, month_values, sheet_row, is_exported, sheet_rows,
  modify_data,
}

-- The headings of the columns, each with the field of a row that stands below it, if there is one.
abbrev pub columns : List (String × Option ℕ)
columns =
    ("Project WBS", some 3)
    ∷ ("WBS Name", none)
    ∷ ("Sub Activity", some 5)
    ∷ ("Brand", some 6)
    ∷ ("Allocation %", some 7)
    ∷ ("PO Number", some 8)
    ∷ ("PO Description", none)
    ∷ ("Vendor", some 10)
    ∷ ("Requestor", some 1)
    ∷ ("Jan", some 12)
    ∷ ("Feb", some 13)
    ∷ ("Mar", some 14)
    ∷ ("Apr", some 15)
    ∷ ("May", some 16)
    ∷ ("Jun", some 17)
    ∷ ("Jul", some 18)
    ∷ ("Aug", some 19)
    ∷ ("Sep", some 20)
    ∷ ("Oct", some 21)
    ∷ ("Nov", some 22)
    ∷ ("Dec", some 23)
    ∷ ("Total", some 24)
    ∷ ("Unit", none)
    ∷ ("PO Total", some 24)
    ∷ ("LTS", none)
    ∷ ("Forecast", none)
    ∷ []

module _ {N : Type 0} where
  abbrev pub cell_under : Row N → String × Option ℕ → Value N
  cell_under d (heading, none) = str ""
  cell_under d (heading, some field) = d field

  abbrev pub row_under : Row N → List (Value N)
  row_under d = map (cell_under d) columns

  sheet_row-row_under : (d : Row N) → sheet_row d ≡ row_under d
  unfolding sheet_row month_values
  sheet_row-row_under d = refl

module _ {N : Type 0} ⦃n : Number N⦄ where
  -- A forecast whose identifier is not blank.
  abbrev pub has_sheet_row : Row N → Bool
  has_sheet_row d = not (text_eq (trim (to_string (d 0))) "") && loose_eq (d 11) (str "Forecast")

  to_string?-eq-some : (v : Value N) (s : String) → to_string? v ≡ some s → s ≡ to_string v
  to_string?-eq-some undefined s e = cc
  to_string?-eq-some (str t) s e = sym (some-injective _ _ e)
  to_string?-eq-some (num x) s e = sym (some-injective _ _ e)
  to_string?-eq-some (bool b) s e = sym (some-injective _ _ e)

  is_exported-has_sheet_row : (d : Row N) (b : Bool) → is_exported d ≡ some b → b ≡ has_sheet_row d
  unfolding is_exported
  is_exported-has_sheet_row d b e =
      let (id, ei, e1) = >>=-eq-some (to_string? (d 0)) _ e in
      sym (some-injective _ _ e1)
      ∙ ap (λ s. not (text_eq (trim s) "") && loose_eq (d 11) (str "Forecast"))
          (to_string?-eq-some (d 0) id ei)

  sheet_rows-select :
      (ds : List (Row N)) (rows : List (List (Value N)))
      → sheet_rows ds ≡ some rows
      → rows ≡ map row_under (select has_sheet_row ds)
  unfolding sheet_rows
  sheet_rows-select [] rows e = sym (some-injective _ _ e)
  sheet_rows-select (d ∷ ds) rows e =
      let (b, eb, e1) = >>=-eq-some (is_exported d) _ e in
      let (rest, er, e2) = >>=-eq-some (sheet_rows ds) _ e1 in
      let later = sheet_rows-select ds rest er in
      let same = is_exported-has_sheet_row d b eb in
      let taken = sym (some-injective _ _ e2) in
      elim (Bool-cases (has_sheet_row d)) [
        | inl yes_listed ↦
            rw yes_listed (taken ∙ rw (same, yes_listed, later, sheet_row-row_under d) refl)
        | inr not_listed ↦ rw not_listed (taken ∙ rw (same, not_listed, later) refl)
      ]

  rows-width : (ds : List (Row N)) → All (λ r. length r ≡ 26) (map row_under ds)
  rows-width [] = tt
  rows-width (d ∷ ds) = (refl, rows-width ds)

  -- The sheet has a first heading, the headings of the columns, and below them, in their order, a row
  -- for each forecast whose identifier is not blank, with the field of each column below its heading;
  -- and all of them have 26 columns.
  pub modify_data-rectangle :
      (month : ℕ) (ds : List (Row N)) (rows : List (List (Value N)))
      → modify_data month ds ≡ some rows
      → (rows
          ≡ first_heading month
            ∷ map (λ c. str c.0) columns
            ∷ map row_under (select has_sheet_row ds))
        × All (λ r. length r ≡ 26) rows
  unfolding modify_data second_heading first_heading month_labels
  modify_data-rectangle month ds rows e =
      let (rest, er, e1) = >>=-eq-some (sheet_rows ds) _ e in
      let later = sheet_rows-select ds rest er in
      let whole = sym (some-injective _ _ e1) ∙ rw later refl in
      rw whole (refl, (refl, (refl, rows-width (select has_sheet_row ds))))
