-- ===== src/Removal/Tests.antt =====
-- Runs of `deleteCurrentProject`, and the theorems on them.
use budget_app.Base.{◌≡◌, refl, ◌↔◌, ◌⊎◌, true, false, String, none, some, List, [], ◌∷◌, split}
use budget_app.Fixtures.{fields}
use budget_app.Js.{str, Row, loose_eq}
use budget_app.Js.Decimal.{Decimal, decimal_number}
use budget_app.Page.{Effect, sends}
use budget_app.Removal.{part, delete_project}
use budget_app.Removal.Rights.{delete_iff}

abbrev button_text : String
button_text = "307~ann~2015_3~New~Launch"

-- The year stands for the date.
abbrev year_of : List String → Decimal
year_of [] = none
year_of (y ∷ ds) = decimal_number.parse_float y

delete_iff_example :
    let parts = split b'~' button_text in
    ((effects : List (Effect Decimal)) × (delete_project year_of true "ann"
          (decimal_number.of_nat 2014)
          true
          (str "7034")
          button_text
        ≡ some effects)
      × (sends effects ≡ true))
    ↔ ((true ≡ true)
        × ((true ≡ false)
            ⊎ ((loose_eq (part {N = Decimal} parts 1) (str "ann") ≡ true)
                × (loose_eq (part {N = Decimal} parts 3) (str "New") ≡ true)
                × (decimal_number.lt (year_of (split b'_' "2015_3")) (decimal_number.of_nat 2014)
                    ≡ false))))
unfolding split
delete_iff_example =
    delete_iff year_of true "ann" (decimal_number.of_nat 2014) true (str "7034") button_text
      "2015_3" refl

abbrev launch : Row Decimal
launch = fields (
    (2, str "Launch")
    ∷ (26, str "New")
    ∷ (27, str "307")
    ∷ (38, str "2015_3")
    ∷ (54, str "ann")
    ∷ [])
