-- ===== src/Editors/Fresh.antt =====
-- slick.editors.js, `loadValue`, `show` and `isValueChanged`: an editor that has just been opened.
use budget_app.Base.{
  ℕ, ◌≡◌, refl, inl, inr, true, false, String, Option, if◌then◌else◌, Bool-cases, ◌||◌,
  text_eq_refl, arith,
}
use budget_app.Editors.{
  Verdict, Kind, auto, integer, long_text, float_text, gmemori_text, po_number_text,
  percentage_allocation_text, one_line, is_nan, or_blank, shown, opened, opened_long, is_changed,
  load_plain, auto_editor, integer_editor, long_text_editor, float_editor, gmemori_editor,
  po_number_editor, percentage_allocation_editor, editor_of,
}
use budget_app.Editors.LongText.{show_text}
use budget_app.Js.{to_string, Number, Value, undefined, str, num, bool, Row, loose_eq}

module _ {N : Type 0} ⦃n : Number N⦄ where
  -- A missing value, a text of one line, or a number whose printed form is of one line and is read
  -- back as the number.
  abbrev pub IsPlain : Value N → Type 0
  IsPlain undefined = Unit
  IsPlain (str s) = one_line s ≡ s
  IsPlain (num x) = (one_line (n.show x) ≡ n.show x) × (n.eq (n.to_number (n.show x)) x ≡ true)
  IsPlain (bool b) = ⊥

  pub opened-unchanged : (v : Value N) → IsPlain v → is_changed (opened v) ≡ false
  unfolding opened is_changed shown loose_eq
  opened-unchanged undefined h = refl
  opened-unchanged (str s) h = rw h (rw text_eq_refl (ground arith))
  opened-unchanged (num x) (one, back) = rw one (rw back (ground arith))
  opened-unchanged (bool b) h = absurd h

  or_blank-IsPlain : (v : Value N) → IsPlain v → IsPlain (or_blank v)
  unfolding or_blank one_line
  or_blank-IsPlain undefined h = refl
  or_blank-IsPlain (str s) h = h
  or_blank-IsPlain (num x) h = elim (Bool-cases (is_nan x || n.eq x (n.of_nat 0))) [
    | inl e ↦ rw e refl
    | inr e ↦ rw e h
  ]
  or_blank-IsPlain (bool b) h = absurd h

  zero-IsPlain :
      (v : Value N) → IsPlain v → IsPlain (if loose_eq v (num (n.of_nat 0)) then str "" else v)
  unfolding one_line
  zero-IsPlain v h = elim (Bool-cases (loose_eq v (num (n.of_nat 0)))) [
    | inl e ↦ rw e refl
    | inr e ↦ rw e h
  ]

  -- What `show` leaves of the text is the text.
  abbrev pub IsShownAsStored : Value N → Type 0
  IsShownAsStored undefined = Unit
  IsShownAsStored v = show_text (to_string v) ≡ to_string v

  opened_long-unchanged :
      (v : Value N) → IsPlain v → IsShownAsStored v → is_changed (opened_long v) ≡ false
  unfolding opened_long is_changed loose_eq show_text
  opened_long-unchanged undefined h kept = refl
  opened_long-unchanged (str s) h kept = rw kept (rw text_eq_refl (ground arith))
  opened_long-unchanged (num x) (one, back) kept = rw kept (rw back (ground arith))
  opened_long-unchanged (bool b) h kept = absurd h

  -- Only a remark is changed by being shown.
  abbrev pub OpensAsStored : Kind → Value N → Type 0
  OpensAsStored long_text v = IsShownAsStored v
  OpensAsStored _ v = Unit

  -- Every editor, opened on a cell that is missing, of one line of text, or a number that its printed
  -- form is read back as, reports no change, provided that, where it is the window of a
  -- remark, its `show` leaves the text as it is stored.
  pub load_value-unchanged :
      (kind : Kind) (validator : Option (String → Verdict)) (item : Row N) (field : ℕ)
      → IsPlain (item field)
      → OpensAsStored kind (item field)
      → (editor_of validator kind).is_value_changed
          ((editor_of validator kind).load_value item field)
        ≡ false
  unfolding editor_of auto_editor integer_editor float_editor gmemori_editor po_number_editor
      percentage_allocation_editor load_plain long_text_editor
  load_value-unchanged auto validator item field h k = opened-unchanged _ (or_blank-IsPlain _ h)
  load_value-unchanged integer validator item field h k = opened-unchanged _ h
  load_value-unchanged long_text validator item field h k = opened_long-unchanged _ h k
  load_value-unchanged float_text validator item field h k = opened-unchanged _ h
  load_value-unchanged gmemori_text validator item field h k = opened-unchanged _ (zero-IsPlain _ h)
  load_value-unchanged po_number_text validator item field h k = opened-unchanged _ h
  load_value-unchanged percentage_allocation_text validator item field h k = opened-unchanged _ h
