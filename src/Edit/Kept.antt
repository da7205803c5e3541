-- ===== src/Edit/Kept.antt =====
-- war/scripts/editProjects.js, `updateMemCache`: what a row is, and the loop over the rows.
pub mod Loops
pub mod Whole
use mathlib.Core.Option.{some-injective}
use budget_app.Base.{
  ℕ, ◌≡◌, ◌≢◌, refl, sym, subst, ◌∙◌, inl, inr, true, ◌&&◌, some, List, [], ◌∷◌, All, ◌==◌,
  Bool-cases, Option-cases, text_eq, arith, >>=-eq-some,
}
use budget_app.Constants.{
  project_name_field, forecast, quarterly_target, quarterly_lts, project_name_gid_field,
  project_name_cell,
}
use budget_app.Edit.Cells.{Context, Globals, is_month, is_open, is_live, matches}
use budget_app.Edit.Loop.{Edited, second_part, edit_rows}
use budget_app.Edit.Frame.{edit_rows-cons}
use budget_app.Edit.Rows.{
  Turn, going, halted, copied_field, with_allocation, forecast_month, rename, copy_field,
  target_month, is_text_cell, first_part, note_month, labelled, copy_name, lts_month,
}
use budget_app.Js.{Number, Value, str, num, Row, put, loose_eq, trim?}
use budget_app.Months.{retotal}
use budget_app.Months.Total.{retotal-outside}

-- No text cell is copied to one of the fields.
copied_field-far :
    (cell f : ℕ)
    → copied_field cell ≡ some f
    → (f ≢ 11) × (f ≢ 26) × (f ≢ 27) × (f ≢ 34) × (f ≢ 35) × (f ≢ 37)
unfolding copied_field
copied_field-far cell f h = ground arith

module _ {N : Type 0} where
  -- Two states of a row are of the same row.
  abbrev pub Same : Row N → Row N → Type 0
  Same d e = All (λ i. e i ≡ d i) (11 ∷ 26 ∷ 27 ∷ 34 ∷ 35 ∷ 37 ∷ [])

  pub Same-refl : (d : Row N) → Same d d
  Same-refl d = (refl, (refl, (refl, (refl, (refl, (refl, tt))))))

  pub Same-trans : (c d e : Row N) → Same c d → Same d e → Same c e
  Same-trans c d e (a, (b, (x, (y, (z, (w, _)))))) (a', (b', (x', (y', (z', (w', _)))))) =
      (a' ∙ a, (b' ∙ b, (x' ∙ x, (y' ∙ y, (z' ∙ z, (w' ∙ w, tt))))))

  -- Rows that correspond one by one.
  abbrev pub SameRows : List (Row N) → List (Row N) → Type 0
  SameRows [] [] = Unit
  SameRows (d ∷ ds) (e ∷ es) = Same d e × SameRows ds es
  SameRows _ _ = ⊥

  pub SameRows-refl : (ds : List (Row N)) → SameRows ds ds
  SameRows-refl [] = tt
  SameRows-refl (d ∷ ds) = (Same-refl d, SameRows-refl ds)

  pub put-month-Same :
      (d : Row N) (cell : ℕ) (v : Value N) → is_month cell ≡ true → Same d (put d cell v)
  unfolding is_month
  put-month-Same d cell v h = (
    ground arith,
    (ground arith, (ground arith, (ground arith, (ground arith, (ground arith, tt))))),
  )

  abbrev KeepsTurn : Row N → Turn N → Type 0
  KeepsTurn d (going e cs) = Same d e
  KeepsTurn d (halted e) = Same d e

  put-far-Same :
      (d : Row N) (f : ℕ) (v : Value N)
      → (f ≢ 11) × (f ≢ 26) × (f ≢ 27) × (f ≢ 34) × (f ≢ 35) × (f ≢ 37)
      → Same d (put d f v)
  put-far-Same d f v (a, b, x, y, z, w) = (
    ground arith,
    (ground arith, (ground arith, (ground arith, (ground arith, (ground arith, tt))))),
  )

module _ {N : Type 0} ⦃n : Number N⦄ where
  retotal-Same : (d : Row N) → Same d (retotal d)
  retotal-Same d = (
    retotal-outside d 11 (inl (omega arith)),
    (
      retotal-outside d 26 (inr (omega arith)),
      (
        retotal-outside d 27 (inr (omega arith)),
        (
          retotal-outside d 34 (inr (omega arith)),
          (
            retotal-outside d 35 (inr (omega arith)),
            (retotal-outside d 37 (inr (omega arith)), tt),
          ),
        ),
      ),
    ),
  )

  month-Same :
      (d : Row N) (cell : ℕ) (v : Value N) → is_month cell ≡ true → Same d (retotal (put d cell v))
  month-Same d cell v h =
      Same-trans d (put d cell v) (retotal (put d cell v)) (put-month-Same d cell v h)
        (retotal-Same (put d cell v))

  with_allocation-Same : (d : Row N) → Same d (with_allocation d)
  unfolding with_allocation
  with_allocation-Same d = elim (Bool-cases (loose_eq (d 7) (num (n.of_nat 0)))) [
    | inl e ↦ rw e (Same-refl d)
    | inr e ↦ rw e (Same-refl d)
  ]

  forecast_month-Same :
      (c : Context N) (d : Row N) → is_month c.cell ≡ true → Same d (forecast_month c d)
  unfolding forecast_month
  forecast_month-Same c d h =
      Same-trans d (with_allocation d) (forecast_month c d) (with_allocation-Same d)
        (month-Same (with_allocation d) c.cell _ h)

  rename-KeepsTurn : (c : Context N) (d : Row N) (t : Turn N) → rename c d ≡ some t → KeepsTurn d t
  unfolding rename
  rename-KeepsTurn c d t e =
      elim (Bool-cases (loose_eq (c.item project_name_field) (str "undefined"))) [
        | inl u ↦ subst (KeepsTurn d) (some-injective _ _ (rw u at e)) (Same-refl d)
        | inr u ↦
            let (s, es, e1) = >>=-eq-some (trim? (c.item project_name_field)) _ (rw u at e) in
            elim (Bool-cases (text_eq s "")) [
              | inl b ↦ subst (KeepsTurn d) (some-injective _ _ (rw b at e1)) (Same-refl d)
              | inr b ↦ subst (KeepsTurn d) (some-injective _ _ (rw b at e1)) (Same-refl d)
            ]
      ]

  copy_field-KeepsTurn :
      (c : Context N) (d : Row N) (t : Turn N) → copy_field c d ≡ some t → KeepsTurn d t
  unfolding copy_field
  copy_field-KeepsTurn c d t e = elim (Option-cases (copied_field c.cell)) [
    | inl none_there ↦ rename-KeepsTurn c d t (rw (copy_field, none_there) at e)
    | inr (f, there) ↦
        subst (KeepsTurn d) (some-injective _ _ (rw (copy_field, there) at e))
          (put-far-Same d f (c.item f) (copied_field-far c.cell f there))
  ]

  first_part-KeepsTurn :
      (c : Context N) (d : Row N) (t : Turn N) → first_part c d ≡ some t → KeepsTurn d t
  unfolding first_part target_month
  first_part-KeepsTurn c d t e = elim (Bool-cases (matches c forecast d && is_month c.cell)) [
    | inl month ↦
        subst (KeepsTurn d) (some-injective _ _ (rw month at e))
          (forecast_month-Same c d (ground (arith, month)))
    | inr no_month ↦ elim (Bool-cases (matches c forecast d && is_text_cell c.cell)) [
      | inl text ↦ copy_field-KeepsTurn c d t (rw (no_month, text) at e)
      | inr no_text ↦
          elim (Bool-cases
            (matches c quarterly_target d && is_month c.cell && is_live d && is_open c)) [
              | inl target ↦
                  subst (KeepsTurn d) (some-injective _ _ (rw (no_month, no_text, target) at e))
                    (month-Same d c.cell _ (ground (arith, target)))
              | inr other ↦
                  subst (KeepsTurn d) (some-injective _ _ (rw (no_month, no_text, other) at e))
                    (Same-refl d)
            ]
    ]
  ]

  copy_name-Same : (c : Context N) (d e : Row N) → copy_name c d ≡ some e → Same d e
  unfolding copy_name
  copy_name-Same c d e h =
      elim (Bool-cases (loose_eq c.key (d 34) && (c.cell == project_name_cell) && is_live d)) [
        | inl here ↦
            let (label, _, h1) =
              >>=-eq-some (labelled (c.item project_name_field) (d project_name_gid_field)) _
                (rw here at h) in
            subst (Same d) (some-injective _ _ h1) (Same-refl d)
        | inr away ↦ subst (Same d) (some-injective _ _ (rw away at h)) (Same-refl d)
      ]

  lts_month-Same : (c : Context N) (g : Globals N) (d : Row N) → Same d (lts_month c g d)
  unfolding lts_month
  lts_month-Same c g d =
      elim (Bool-cases (matches c quarterly_lts d && is_month c.cell && is_live d)) [
        | inl here ↦ rw here (month-Same d c.cell _ (ground (arith, here)))
        | inr away ↦ rw away (Same-refl d)
      ]

  second_part-Same :
      (c : Context N) (g : Globals N) (d e : Row N) → second_part c g d ≡ some e → Same d e
  unfolding second_part
  second_part-Same c g d e h =
      let (named, hn, h1) = >>=-eq-some (copy_name c d) _ h in
      subst (Same d) (some-injective _ _ h1) (
        Same-trans d named (lts_month c g named) (copy_name-Same c d named hn)
          (lts_month-Same c g named))

  pub edit_rows-SameRows :
      (c : Context N) (g : Globals N) (ds : List (Row N)) (r : Edited N)
      → edit_rows c g ds ≡ some r
      → SameRows ds r.rows
  unfolding edit_rows
  edit_rows-SameRows c g [] r e = subst (λ s. SameRows [] s.rows) (some-injective _ _ e) tt
  edit_rows-SameRows c g (d ∷ ds) r e = elim (edit_rows-cons c g d ds r e) [
    | inl halt ↦
        subst (λ s. SameRows (d ∷ ds) s.rows) (sym halt.result)
          (first_part-KeepsTurn c d (halted halt.row) halt.first, SameRows-refl ds)
    | inr t ↦
        let one = first_part-KeepsTurn c d (going t.middle t.cs) t.first in
        let two = second_part-Same c (note_month c d t.middle g) t.middle t.row t.second in
        subst (λ s. SameRows (d ∷ ds) s.rows) (sym t.result)
          (
            Same-trans d t.middle t.row one two,
            edit_rows-SameRows c (note_month c d t.middle g) ds t.rest t.later,
          )
  ]
