-- ===== src/Search/Tests.antt =====
-- Searches in a few rows.
use budget_app.Base.{
  arith, ◌≡◌, refl, true, false, String, Option, none, some, List, [], ◌∷◌, map, contains, trim,
  split, contains_fold, eq_fold, All, select, ◌>>=◌,
}
use budget_app.Base.Text.Replace.{replace_all}
use budget_app.Base.Order.{has_twins, sort, has_twins-sort_iff}
use budget_app.Fixtures.{amounts, item_of}
use budget_app.Js.{undefined, str, num, Row, put}
use budget_app.Js.Decimal.{Decimal, decimal_number, decimal_runs}
use budget_app.Page.{Item, Effect}
use budget_app.Search.{
  Query, search_text, set_entry, is_long, searched_lacks, lacks, brand_lacks, sub_brands,
  is_other_kind, is_missed, is_rejected, map_key, search_project, under_parents, refresh,
}
use budget_app.Search.Found.{AreTexts, is_shown, lookup, latest, refresh-is_found}
use budget_app.Search.Totalled.{found_entries, keys, refresh-calculate_total}
use budget_app.Totals.{
  Entries, Totals, id_of, kind_of, is_counted, next_project, found, find_totals, add_entry,
  add_entries, set_left, calculate_total,
}
use budget_app.Totals.Sums.{of_forecasts, sum_from, entered}

-- A row of a project: its identifier, brand, status, kind, and the amount of March.
abbrev project : String × String × String × String × String → Item Decimal
project (id, brand, status, kind, march) =
    let d = put (put (put (amounts status march) 11 (str kind)) 27 (str id)) 28 (str brand) in
    let e = put (put (put d 29 (str "launch")) 30 (str "")) 32 (str "") in
    item_of id (put (put e 33 (str "New")) 40 (str kind))

projects-AreTexts :
    (ps : List (String × String × String × String × String))
    → All (λ i. AreTexts i.cells) (map project ps)
projects-AreTexts [] = tt
projects-AreTexts ((id, brand, status, kind, march) ∷ ps) = (
  ((id, refl), ((brand, refl), (("launch", refl), (("", refl), (("", refl), ((kind, refl), tt)))))),
  projects-AreTexts ps,
)

abbrev projects : List (String × String × String × String × String)
projects =
    ("T", "", "Total", "Forecast", "0")
    ∷ ("T", "", "Total", "Accrual", "0")
    ∷ ("T", "", "Total", "Quarterly Target", "0")
    ∷ ("T", "", "Total", "Quarterly LTS", "0")
    ∷ ("123", "Avastin", "Active", "Forecast", "5")
    ∷ ("200", "Rituxan", "Active", "Forecast", "20")
    ∷ []

abbrev rows : List (Item Decimal)
rows = map project projects

abbrev avastin : Query Decimal
avastin = record { search = "AVA"; radio = "All"; brands = λ id. undefined }

runs : (search_text false "a<b" ≡ "a&lt;b") × (search_text true "a<b" ≡ "")
unfolding search_text replace_all
runs = (refl, refl)

refresh-is_found_example :
    (map' : Entries Decimal) × (refresh avastin rows []
      ≡ some (select (is_shown avastin) rows, map'))
    × ((key : String) → lookup key map' ≡ latest avastin key none rows)
refresh-is_found_example = refresh-is_found avastin rows [] (projects-AreTexts projects)

found_rows :
    map (λ e. e.0) (found_entries avastin rows)
    ≡ "T:Forecast" ∷ "T:Accrual" ∷ "T:Quarterly Target" ∷ "T:Quarterly LTS" ∷ "123:Forecast" ∷ []
unfolding decimal_runs contains_fold map_key eq_fold sub_brands
found_rows = refl

abbrev totals_of : Option (Totals Decimal) → Totals Decimal
totals_of none = record { forecasts = none; accruals = none; targets = none; left = none }
totals_of (some t) = t

abbrev first_of : Option (Totals Decimal × List (Effect Decimal)) → Totals Decimal
first_of none = totals_of none
first_of (some (t, es)) = t

abbrev second_of : Option (Totals Decimal × List (Effect Decimal)) → List (Effect Decimal)
second_of none = []
second_of (some (t, es)) = es

abbrev row_of_sum : Option (Row Decimal) → Row Decimal
row_of_sum none = λ j. undefined
row_of_sum (some d) = d

after_search : Option (Totals Decimal × List (Effect Decimal))
after_search = refresh avastin rows [] >>= λ r. calculate_total true r.1

refresh-calculate_total_example :
    row_of_sum (first_of after_search).forecasts 14
    ≡ sum_from 14
        (num (decimal_number.of_nat 0))
        (entered of_forecasts "" (found_entries avastin rows))
unfolding decimal_runs after_search contains_fold map_key eq_fold sub_brands found find_totals
    kind_of split trim has_twins sort refresh search_project under_parents is_rejected is_missed
    is_long searched_lacks lacks brand_lacks is_other_kind set_entry calculate_total add_entries
    add_entry set_left is_counted id_of next_project contains
refresh-calculate_total_example =
    refresh-calculate_total avastin rows true (first_of after_search) (second_of after_search)
      of_forecasts (row_of_sum (first_of after_search).forecasts) 14 (projects-AreTexts projects)
      ((has_twins-sort_iff (keys (found_entries avastin rows))).0 refl) refl refl (omega arith)
      (omega arith)
