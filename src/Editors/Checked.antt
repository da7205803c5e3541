-- ===== src/Editors/Checked.antt =====
-- slick.editors.js: the `validate` of the editors.
use budget_app.Base.{
  ◌≡◌, ◌≤◌, ◌⊎◌, refl, inl, inr, ap, true, false, ◌||◌, Bool-cases, text_eq, text_eq_iff,
  text_length, contains, trim, ltb, arith,
}
use budget_app.Base.Text.Trim.{trim-cases}
use budget_app.Editors.{Fits, gmemori_attributes, Field, is_nan, float_editor, gmemori_editor}
use budget_app.Editors.Fresh.{IsPlain, opened-unchanged}
use budget_app.Js.{Number}

module _ {N : Type 0} ⦃n : Number N⦄ where
  -- An entry that the editor of the months refuses is replaced by the value of the row, and then
  -- is no change, if the value is plain; an entry that it accepts stays in the field.
  float_editor-reset :
      (f : Field N)
      → IsPlain f.default_value
      → (((float_editor.validate f).0.valid ≡ false)
          × (float_editor.is_value_changed (float_editor.validate f).1 ≡ false))
        ⊎ (((float_editor.validate f).0.valid ≡ true) × ((float_editor.validate f).1 ≡ f))
  unfolding float_editor
  float_editor-reset f h = elim (Bool-cases (is_nan (n.to_number f.text))) [
    | inl bad ↦ inl (rw bad refl, rw bad (opened-unchanged f.default_value h))
    | inr good ↦ inr (rw good (refl, refl))
  ]

  -- An entry that fits into the field and that the editor of identifiers accepts is empty, or has
  -- exactly six characters with no white space around them and no point among them, and is a number.
  pub gmemori_editor-six :
      (f : Field N)
      → Fits gmemori_attributes f.text
      → (gmemori_editor.validate f).0.valid ≡ true
      → (f.text ≡ "")
        ⊎ ((text_length f.text ≡ 6)
            × (trim f.text ≡ f.text)
            × (contains f.text "." ≡ false)
            × (is_nan (n.to_number f.text) ≡ false))
  unfolding gmemori_editor
  gmemori_editor-six f short e = elim (Bool-cases (text_eq f.text "")) [
    | inl empty ↦ inl ((text_eq_iff f.text "").0 empty)
    | inr written ↦
        let clean : (is_nan (n.to_number f.text)
              || ltb (text_length (trim f.text)) 6
              || contains f.text ".")
            ≡ false =
          ground (arith, e, written) in
        let long : 6 ≤ text_length (trim f.text) = ground (arith, clean) in
        inr (elim (trim-cases f.text) [
          | inl shorter ↦ absurd (omega (arith, short, long, shorter))
          | inr same ↦
              let len : text_length (trim f.text) ≡ text_length f.text = ap text_length same in
              (omega (arith, short, long, len), same, ground (arith, clean), ground (arith, clean))
        ])
  ]
