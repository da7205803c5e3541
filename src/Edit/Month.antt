-- ===== src/Edit/Month.antt =====
-- war/scripts/editProjects.js, `updateMemCache`: the loop over the rows, for a month.
use mathlib.Core.Option.{some-injective}
use budget_app.Base.{
  ℕ, zero, suc, ◌≡◌, refl, sym, ap, ◌∙◌, inl, inr, true, false, ◌&&◌, Option, some, List, [], ◌∷◌,
  ◌++◌, map, length, get_elem?, String, text_eq, select, arith, ◌==◌, if◌then◌else◌, Bool-cases,
}
use budget_app.Constants.{project_name_cell, forecast, quarterly_target}
use budget_app.Edit.Cells.{Context, Globals, is_month, is_open, is_live, matches}
use budget_app.Edit.Frame.{edit_rows-cons}
use budget_app.Edit.Loop.{Edited, add_turn, second_part, edit_rows}
use budget_app.Edit.Rows.{
  Change, Turn, going, halted, forecast_month, target_month, first_part, note_month, copy_name,
  lts_month,
}
use budget_app.Js.{Number, str, Row, loose_eq}

month-is_no_name : (cell : ℕ) → is_month cell ≡ true → (cell == project_name_cell) ≡ false
unfolding is_month
month-is_no_name cell h = ground arith

module _ {N : Type 0} ⦃n : Number N⦄ where
  -- A row after the first part of a turn, and what is to be stored of it.
  abbrev pub first_row : Context N → Row N → Row N
  first_row c d =
      if matches c forecast d
      then forecast_month c d
      else if matches c quarterly_target d && is_live d && is_open c
      then target_month c d
      else d

  abbrev pub first_change : Context N → Row N → List (Change N)
  first_change c d = if matches c forecast d then (d 27, forecast_month c d c.cell) ∷ [] else []

  first_part-month :
      (c : Context N) (d : Row N)
      → is_month c.cell ≡ true
      → first_part c d ≡ some (going (first_row c d) (first_change c d))
  unfolding first_part
  first_part-month c d h = elim (Bool-cases (matches c forecast d)) [
    | inl f ↦ rw (f, h) refl
    | inr o ↦ elim (Bool-cases (matches c quarterly_target d && is_live d && is_open c)) [
      | inl t ↦ ground arith
      | inr o' ↦ ground arith
    ]
  ]

  second_part-month :
      (c : Context N) (g : Globals N) (d : Row N)
      → is_month c.cell ≡ true
      → second_part c g d ≡ some (lts_month c g d)
  unfolding second_part copy_name
  second_part-month c g d h = elim (Bool-cases (loose_eq c.key (d 34))) [
    | inl same ↦ rw (same, month-is_no_name c.cell h) refl
    | inr other ↦ rw other refl
  ]

  changes_ids :
      (c : Context N) (d : Row N) (cs : List (Change N)) (ds : List (Row N))
      → map (λ s. s.0) cs ≡ map (λ d. d 27) ds
      → map (λ s. s.0) (first_change c d ++ cs)
        ≡ map (λ d. d 27) (if matches c forecast d then d ∷ ds else ds)
  changes_ids c d cs ds e = elim (Bool-cases (matches c forecast d)) [
    | inl f ↦ rw f (ap (◌∷◌ (d 27)) e)
    | inr o ↦ rw o e
  ]

  -- An edit of a month always goes through all rows: none is lost, and what is to be stored are
  -- the identifiers of the project's forecasts, each with an amount.
  pub edit_rows-month :
      (c : Context N) (g : Globals N) (ds : List (Row N))
      → is_month c.cell ≡ true
      → (r : Edited N) × (edit_rows c g ds ≡ some r)
        × (r.ended ≡ false)
        × (length r.rows ≡ length ds)
        × (map (λ s. s.0) r.changes ≡ map (λ d. d 27) (select (matches c forecast) ds))
  unfolding edit_rows
  edit_rows-month c g [] h =
      (record { rows = []; changes = []; globals = g; ended = false }, refl, refl, refl, refl)
  edit_rows-month c g (d ∷ ds) h =
      let e = first_row c d in
      let g' = note_month c d e g in
      let (r, er, going_on, count, ids) = edit_rows-month c g' ds h in
      (
        add_turn (lts_month c g' e) (first_change c d) r,
        rw (first_part-month c d h) (rw (second_part-month c g' e h) (rw er refl)),
        going_on,
        ap suc count,
        changes_ids c d r.changes _ ids,
      )

  going-parts :
      {d e : Row N} {cs es : List (Change N)}
      → ◌≡◌ {A = Option (Turn N)} (some (going d cs)) (some (going e es))
      → (d ≡ e) × (cs ≡ es)
  going-parts h = ground arith

  not_halted :
      {d e : Row N} {cs : List (Change N)}
      → ◌≡◌ {A = Option (Turn N)} (some (going d cs)) (some (halted e))
      → ⊥
  not_halted h = cc

  -- One turn of an edit of a month.
  pub record MonthTurn (c : Context N) (g : Globals N) (d : Row N) (ds : List (Row N))
      (r : Edited N) : Type 0 where
    pub after : Globals N
    pub noted : after ≡ note_month c d (first_row c d) g
    pub rest : Edited N
    pub later : edit_rows c after ds ≡ some rest
    pub rows : r.rows ≡ lts_month c after (first_row c d) ∷ rest.rows

  pub edit_rows-month-cons :
      (c : Context N) (g : Globals N) (d : Row N) (ds : List (Row N)) (r : Edited N)
      → is_month c.cell ≡ true
      → edit_rows c g (d ∷ ds) ≡ some r
      → MonthTurn c g d ds r
  edit_rows-month-cons c g d ds r h e = elim (edit_rows-cons c g d ds r e) [
    | inl halt ↦ absurd (not_halted (sym (first_part-month c d h) ∙ halt.first))
    | inr t ↦
        let (em, _) = going-parts (sym t.first ∙ first_part-month c d h) in
        let g' = note_month c d t.middle g in
        let row : t.row ≡ lts_month c g' (first_row c d) = some-injective _ _ (
          sym t.second
          ∙ second_part-month c g' t.middle h
          ∙ ap (λ x. some (lts_month c g' x)) em) in
        record {
          after = g';
          noted = ap (λ x. note_month c d x g) em;
          rest = t.rest;
          later = t.later;
          rows = ap (λ s. s.rows) t.result ∙ ap (λ x. x ∷ t.rest.rows) row;
        }
  ]

  -- Every row is edited by itself, but for the globals.
  pub edit_rows-month-at :
      (c : Context N) (g : Globals N) (ds : List (Row N)) (r : Edited N) (i : ℕ) (d : Row N)
      → is_month c.cell ≡ true
      → edit_rows c g ds ≡ some r
      → get_elem? ds i ≡ some d
      → (g' : Globals N) × (get_elem? r.rows i ≡ some (lts_month c g' (first_row c d)))
  edit_rows-month-at c g [] r i d h e at = cc
  edit_rows-month-at c g (x ∷ ds) r zero d h e at =
      let t = edit_rows-month-cons c g x ds r h e in
      (
        t.after,
        ap (λ s. get_elem? s 0) t.rows
            ∙ ap (λ y. some (lts_month c t.after (first_row c y))) (some-injective _ _ at),
      )
  edit_rows-month-at c g (x ∷ ds) r (suc i) d h e at =
      let t = edit_rows-month-cons c g x ds r h e in
      let (g', found) = edit_rows-month-at c t.after ds t.rest i d h t.later at in
      (g', ap (λ s. get_elem? s (suc i)) t.rows ∙ found)

  -- The row is one of the edited project's, of the kind.
  pub record IsOf (c : Context N) (kind : String) (d : Row N) : Type 0 where
    pub own : loose_eq c.key (d 34) ≡ true
    pub named : d 11 ≡ str kind

  pub matches-IsOf :
      (c : Context N) (kind other : String) (d : Row N)
      → IsOf c kind d
      → matches c other d ≡ text_eq kind other
  unfolding matches loose_eq
  matches-IsOf c kind other d h = rw (h.own, h.named) refl
