-- ===== src/Editors/Tests.antt =====
-- Editors at work.
use budget_app.Base.{
  ◌≡◌, ◌⊎◌, refl, true, false, String, none, [], ◌∷◌, ◌==◌, contains, text_length, trim,
  if◌then◌else◌, starts_fold, arith,
}
use budget_app.Base.Text.Replace.{replace_all}
use budget_app.Editors.{
  Field, float_text, long_text, long_text_editor, opened_long, is_changed, one_line, is_nan, shown,
  editor_of, float_editor, gmemori_editor, integer_editor, apply_value,
}
use budget_app.Editors.Checked.{gmemori_editor-six}
use budget_app.Editors.Completion.{offered_tags, is_offered}
use budget_app.Editors.Fresh.{load_value-unchanged}
use budget_app.Editors.LongText.{
  tab, enter, navigate_prev, escaped, stored_text, show_text, handle_key_down,
}
use budget_app.Editors.LongText.Stored.{
  HasNoMarkup, stores, handle_key_down-HasNoMarkup, show_text-stored_text,
}
use budget_app.Js.{str, num, Row, put, loose_eq}
use budget_app.Js.Decimal.{Decimal, decimal_number, decimal_runs, parse_float}

abbrev january : Row Decimal
january j = num (parse_float "12.5")

abbrev typed : String → Field Decimal
typed s = record { text = s; default_value = num (parse_float "12.5") }

-- A refused amount, and identifiers that the check lets through although they are no six digits.
entries :
    ((float_editor.validate (typed "12x")).0.valid ≡ false)
    × ((float_editor.validate (typed "12x")).1.text ≡ "12.5")
    × ((gmemori_editor.validate (typed "-12345")).0.valid ≡ true)
    × ((gmemori_editor.validate (typed "12345")).0.valid ≡ false)
    × ((integer_editor.validate (typed "1.5")).0.valid ≡ true)
    × (integer_editor.serialize_value (typed "1.5") ≡ num (parse_float "1"))
    × (apply_value january 14 (str "3") 14 ≡ str "3")
unfolding decimal_runs float_editor gmemori_editor integer_editor shown one_line contains
    apply_value
entries = (refl, refl, refl, refl, refl, refl, refl)

remark_run :
    (stored_text "a < b > c" ≡ "a &lt; b &gt; c")
    × (show_text "a &lt; b &gt; c" ≡ "a < b > c")
    × (stored_text "  " ≡ "")
unfolding stored_text escaped show_text replace_all trim
remark_run = (refl, refl, refl)

load_value-unchanged_example :
    (editor_of none float_text).is_value_changed ((editor_of none float_text).load_value january 12)
    ≡ false
unfolding decimal_runs one_line
load_value-unchanged_example = load_value-unchanged float_text none january 12 (refl, refl) tt

-- A remark that holds the entity of "<" counts as changed as soon as its window is open.
remark_opened :
    (editor_of none long_text).is_value_changed
      ((editor_of none long_text).load_value (put january 25 (str "a &lt; b")) 25)
    ≡ true
unfolding decimal_runs editor_of long_text_editor opened_long show_text replace_all is_changed
    loose_eq
remark_opened = refl

gmemori_editor-six_example :
    ((typed "307673").text ≡ "")
    ⊎ ((text_length (typed "307673").text ≡ 6)
        × (trim (typed "307673").text ≡ (typed "307673").text)
        × (contains (typed "307673").text "." ≡ false)
        × (is_nan (decimal_number.to_number (typed "307673").text) ≡ false))
unfolding decimal_runs gmemori_editor contains
gmemori_editor-six_example = gmemori_editor-six (typed "307673") (ground arith) refl

offered_run :
    offered_tags "a" ("Avastin" ∷ " actemra" ∷ "Rituxan" ∷ []) ≡ "Avastin" ∷ " actemra" ∷ []
unfolding offered_tags is_offered starts_fold trim
offered_run = refl

handle_key_down-HasNoMarkup_example :
    (stores (handle_key_down enter true false "a<b").1 ≡ true
      → HasNoMarkup (handle_key_down enter true false "a<b").0)
    × (handle_key_down tab true true "a<b" ≡ ("a<b", navigate_prev ∷ []))
handle_key_down-HasNoMarkup_example = handle_key_down-HasNoMarkup enter true false "a<b"

show_text-stored_text_example :
    (show_text (stored_text "a<b")
      ≡ (if text_length (trim (escaped "a<b")) == 0 then "" else "a<b"))
    × (stored_text (stored_text "a<b") ≡ stored_text "a<b")
unfolding contains
show_text-stored_text_example = show_text-stored_text "a<b" refl refl
