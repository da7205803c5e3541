-- ===== src/Session/Tests.antt =====
-- A page on which a project is entered, named and submitted.
use budget_app.Base.{◌≡◌, refl, true, false, Option, none, some, List, [], All, contains_fold, trim}
use budget_app.Create.{
  Grid, create_new, insert_item, made, project_fields, spacer_fields, button_fields, insert_buttons,
  blank_fields, group_fields, zero_months,
}
use budget_app.Js.{str}
use budget_app.Js.Decimal.{Decimal, decimal_number, decimal_runs}
use budget_app.Page.{Item, Effect, sends}
use budget_app.Session.{here, next, created, typed, type_into}
use budget_app.Session.Posted.{PostsEntered, submit-PostsEntered}
use budget_app.Submit.{
  submit_projects, check_rows, conclude, row_verdict, is_missing, code_alerts, settled, repeated_po,
  same_po,
}

abbrev loaded : Grid Decimal
loaded = record {
  rows = [];
  addsave = 0;
  new_exist = true;
  active_exist = false;
  closed_exist = false;
}

abbrev entered : Grid Decimal
entered = (create_new "ann" loaded).0

-- A name and a brand are typed into the first row.
abbrev named : Grid Decimal
named = record entered { rows = type_into 0 2 (str "Launch") entered.rows }

abbrev branded : Grid Decimal
branded = record named { rows = type_into 0 6 (str "Avastin") named.rows }

abbrev result : Option (List (Item Decimal) × List (Effect Decimal))
result = submit_projects (str "7034") branded.addsave branded.rows

abbrev rows_of : Option (List (Item Decimal) × List (Effect Decimal)) → List (Item Decimal)
rows_of none = []
rows_of (some (ds, es)) = ds

abbrev effects_of : Option (List (Item Decimal) × List (Effect Decimal)) → List (Effect Decimal)
effects_of none = []
effects_of (some (ds, es)) = es

submit-PostsEntered_example : All PostsEntered (effects_of result)
unfolding decimal_runs submit_projects check_rows row_verdict is_missing repeated_po same_po settled
    contains_fold trim create_new insert_item insert_buttons made project_fields group_fields
    button_fields spacer_fields zero_months blank_fields
submit-PostsEntered_example =
    submit-PostsEntered (str "7034") loaded branded (rows_of result) (effects_of result) refl
      (next (next (next here (created "ann" loaded)) (typed entered 0 2 (str "Launch") refl))
        (typed named 0 6 (str "Avastin") refl))
      refl

submitted_run : sends (effects_of result) ≡ true
unfolding decimal_runs submit_projects check_rows row_verdict is_missing repeated_po same_po settled
    contains_fold trim create_new insert_item insert_buttons made project_fields group_fields
    button_fields spacer_fields zero_months blank_fields code_alerts conclude
submitted_run = refl
