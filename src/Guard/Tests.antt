-- ===== src/Guard/Tests.antt =====
-- war/editProjects.jsp, `grid.onBeforeEditCell`, on a row in March.
use budget_app.Base.{
  contains, before, Bool, true, false, some, [], ◌∷◌, ◌≡◌, refl, arith, if◌then◌else◌, ◌==◌,
}
use budget_app.Js.{str, Row, loose_eq}
use budget_app.Js.Decimal.{Decimal, decimal_number}
use budget_app.Fixtures.{fields}
use budget_app.Guard
use budget_app.Guard.Open.{IsEditable, before_edit-IsEditable}
use budget_app.Guard.Past.{before_edit-past}
use budget_app.Guard.Current.{before_edit-current}

-- Cell 12 shows January, and cell 14 March, the month it is.
abbrev screen : Guard.Screen
screen = record {
  is_saving = false;
  is_covered = false;
  hides_columns = false;
  month = 2;
  column = λ j. if j == 12 then "JAN" else if j == 14 then "MAR" else "Comments";
}

abbrev stored : Row Decimal
stored = fields (
    (0, str "123456")
    ∷ (11, str "Forecast")
    ∷ (14, str "7")
    ∷ (26, str "Active")
    ∷ (27, str "31")
    ∷ (34, str "")
    ∷ (38, str "2015-02-01")
    ∷ (39, str "2015")
    ∷ [])

abbrev stays : Bool → Guard.Outcome Decimal
stays allowed = Guard.outcome stored (some (Guard.month_cells stored)) (some stored) false allowed

march : Guard.before_edit screen 14 stored ≡ some (stays true)
unfolding Guard.before_edit loose_eq contains before
march = refl

january : Guard.before_edit screen 12 stored ≡ some (stays false)
unfolding Guard.before_edit loose_eq contains before
january = refl

in_year : Guard.first_month screen.month stored ≡ some screen.month
unfolding Guard.first_month before
in_year = refl

not_entered : loose_eq (stored 34) (str "New projects") ≡ false
unfolding loose_eq
not_entered = refl

whole : contains "31" "." ≡ false
unfolding contains
whole = refl

before_edit-IsEditable_example : IsEditable screen "Active" stored
before_edit-IsEditable_example =
    before_edit-IsEditable screen 14 stored "Active" (stays true) refl not_entered march refl

before_edit-past_example : (stays false).is_allowed ≡ false
before_edit-past_example =
    before_edit-past screen 12 0 stored (stays false) not_entered refl refl refl (omega arith)
      in_year january

before_edit-current_example :
    (r : Guard.Outcome Decimal) × (Guard.before_edit screen 14 stored ≡ some r)
    × (r.is_allowed ≡ true)
unfolding loose_eq contains before
before_edit-current_example =
    before_edit-current screen 14 2 2 stored "Active" "31" "123456" refl refl refl refl refl refl
      whole refl not_entered in_year refl (omega arith)
