-- ===== src/Arrays/Tests.antt =====
-- Removing from an array.
use budget_app.Arrays.{splice, remove_items, remove_array_item}
use budget_app.Arrays.Removed.{is_other, remove_array_item-select}
use budget_app.Base.{◌≡◌, refl, some, List, [], ◌∷◌, length, select}
use budget_app.Groups.{strict_eq}
use budget_app.Js.{Value, str}
use budget_app.Js.Decimal.{Decimal, decimal_number}

abbrev letters : List (Value Decimal)
letters = str "a" ∷ str "b" ∷ str "a" ∷ str "a" ∷ []

removed : remove_array_item letters (str "a") ≡ some (str "b" ∷ [], 3)
unfolding remove_array_item remove_items splice strict_eq
removed = refl

remove_array_item-select_example :
    remove_array_item letters (str "a")
    ≡ some
        (select (is_other (str "a")) letters, length (select (λ x. strict_eq x (str "a")) letters))
remove_array_item-select_example = remove_array_item-select letters (str "a")
