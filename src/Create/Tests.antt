-- ===== src/Create/Tests.antt =====
-- Rows that are entered.
use budget_app.Base.{◌≡◌, refl, true, false, [], ◌∷◌, map}
use budget_app.Create.{
  Grid, insert_item, made, blank_fields, project_fields, spacer_fields, button_fields, zero_months,
  group_fields, insert_buttons, create_new,
}
use budget_app.Js.{str}
use budget_app.Js.Decimal.{Decimal, decimal_number, decimal_runs}

abbrev empty : Grid Decimal
empty = record {
  rows = [];
  addsave = 0;
  new_exist = true;
  active_exist = false;
  closed_exist = false;
}

-- The buttons and the groups are made with the first project alone.
entered_twice :
    map (λ d. d.cells 35) (create_new "ann" (create_new "ann" empty).0).0.rows
    ≡ str "NewProjects"
      ∷ str "NewProjects"
      ∷ str "Buttons"
      ∷ str "Buttons"
      ∷ str "Buttons"
      ∷ str ""
      ∷ str ""
      ∷ []
unfolding decimal_runs create_new insert_buttons insert_item made project_fields group_fields
    button_fields spacer_fields zero_months blank_fields
entered_twice = refl
