-- ===== src/Groups/Tests.antt =====
-- Titles of groups.
use budget_app.Base.{◌≡◌, refl, false, String, some, List, [], ◌∷◌, contains, before, trim}
use budget_app.Base.Order.{Distinct}
use budget_app.Fixtures.{fields}
use budget_app.Groups.{
  strict_eq, in_array, unique, whole_id, project_id, ids_of, count_projects, group_title,
}
use budget_app.Groups.Unique.{texts, unique-Distinct}
use budget_app.Js.{str, Row}
use budget_app.Js.Decimal.{Decimal, decimal_number, decimal_runs}

abbrev ids : List String
ids = "123" ∷ "200" ∷ "123" ∷ []

unique-Distinct_example :
    (us : List String) × (unique {N = Decimal} [] (texts ids) ≡ texts us)
    × Distinct us
    × ((s : String)
        → in_array {N = Decimal} (str s) (texts us) ≡ in_array {N = Decimal} (str s) (texts ids))
unique-Distinct_example = unique-Distinct Decimal ids

abbrev active : String → Row Decimal
active id = fields ((0, str id) ∷ (26, str "Active") ∷ [])

-- A project and its part count once.
title :
    group_title false "Active" (active "123" ∷ active "123.1" ∷ active "" ∷ active "200" ∷ [])
    ≡ some (str "Active  <span style='color:green'>(2 items)</span>")
unfolding decimal_runs group_title count_projects ids_of project_id whole_id unique in_array
    strict_eq contains before trim
title = refl
