-- ===== src/Submit/Tests.antt =====
-- Runs of `submitProjects`, and the theorems on them.
use budget_app.Base.{◌≡◌, refl, ◌↔◌, true, false, String, some, List, [], ◌∷◌, contains}
use budget_app.Fixtures.{fields, item_of}
use budget_app.Js.{str, bool}
use budget_app.Js.Decimal.{Decimal, decimal_number}
use budget_app.Page.{Item, Effect, alert, enable, hide, reload, sends}
use budget_app.Submit.{submit_projects}
use budget_app.Submit.Answered.{
  failure_text, java_error, stringify, submit_failed, submit_done, submit_failed-some,
}
use budget_app.Base.Text.Parts.{split_at, substring}
use budget_app.Submit.Ready.{ReadyRows}
use budget_app.Submit.Sent.{submit_iff}

abbrev project : String → String → String → Item Decimal
project name brand po =
    item_of "id_1" (fields ((2, str name) ∷ (6, str brand) ∷ (8, str po) ∷ (37, bool false) ∷ []))

abbrev grid : List (Item Decimal)
grid = project "Launch" "Avastin" "7" ∷ project "Congress" "Rituxan" "8" ∷ []

submit_iff_example :
    ((grid' : List (Item Decimal)) × (effects : List (Effect Decimal)) × (submit_projects
          (str "7034")
          2
          grid
        ≡ some (grid', effects))
      × (sends effects ≡ true))
    ↔ ReadyRows 2 [] grid
submit_iff_example = submit_iff (str "7034") 2 grid

-- A project without a name that repeats a PO number.
abbrev nameless : Item Decimal
nameless = project "" "Rituxan" "7"

abbrev earlier : List (Item Decimal)
earlier = project "Launch" "Avastin" "7" ∷ []

submit_failed-some_example :
    (text : String) × (submit_failed {N = Decimal} "java.lang.Error: x"
      ≡ some (alert text ∷ enable "submitProjBtn" ∷ hide "back" ∷ hide "loader_image" ∷ []))
submit_failed-some_example = submit_failed-some Decimal "java.lang.Error: x"

failures :
    (failure_text "<poError>:307" ≡ some "PO Number already exists !!!")
    × (failure_text "at java.lang.Error: No such cost center" ≡ some "\"No such cost center\"")
    × (failure_text "500" ≡ some "Unknow server error occured.")
    × (submit_done {N = Decimal} ≡ ([], alert "Project(s) created successfully!!!" ∷ reload ∷ []))
unfolding failure_text java_error stringify split_at substring contains submit_done
failures = (refl, refl, refl, refl)
