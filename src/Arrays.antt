-- ===== src/Arrays.antt =====
-- war/scripts/editProjects.js, `removeArrayItem`: the loop over an array that it shortens. The fuel is
-- one more than the length of the array.
pub mod Removed
mod Tests
use budget_app.Base.{
  ℕ, zero, suc, ◌+◌, true, false, Option, none, some, List, [], ◌∷◌, length, get_elem?,
}
use budget_app.Groups.{strict_eq}
use budget_app.Js.{Number, Value}

module _ {N : Type 0} where
  -- `arr.splice(index, 1)`
  unfoldable pub splice : ℕ → List (Value N) → List (Value N)
  splice index [] = []
  splice zero (x ∷ xs) = xs
  splice (suc index) (x ∷ xs) = x ∷ splice index xs

module _ {N : Type 0} ⦃n : Number N⦄ where
  -- The loop, with `index` and `removeCounter`.
  unfoldable pub remove_items : ℕ → Value N → ℕ → ℕ → List (Value N) → Option (List (Value N) × ℕ)
  unfolding splice strict_eq
  remove_items zero item index counter arr = none
  remove_items (suc fuel) item index counter arr = elim (get_elem? arr index) [
    | none ↦ some (arr, counter)
    | some x ↦ elim (strict_eq x item) [
      | true ↦ remove_items fuel item index (counter + 1) (splice index arr)
      | false ↦ remove_items fuel item (index + 1) counter arr
    ]
  ]

  unfoldable pub remove_array_item : List (Value N) → Value N → Option (List (Value N) × ℕ)
  unfolding remove_items
  remove_array_item arr item = remove_items (suc (length arr)) item 0 0 arr
