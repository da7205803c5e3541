-- ===== src/Totals.antt =====
-- war/scripts/editProjects.js, `calculateTotal`: the rows of the totals are added up again over the
-- rows that the search has left. `map` is a list of keys, such as "307.1:Forecast", with rows, in the
-- order in which they were entered. `none` stands for the `TypeError` of a missing part of a key or
-- of a missing row of totals.
pub mod Left
pub mod Sums
pub mod Added
pub mod Zero
pub mod Counted
mod Tests
use budget_app.Base.{
  ℕ, zero, suc, ◌+◌, Bool, true, false, ◌&&◌, ◌||◌, not, String, Option, none, some, List, [], ◌∷◌,
  get_elem?, if◌then◌else◌, text_eq, contains, trim, split, ◌>>=◌,
}
use budget_app.Constants.{forecast, accrual, quarterly_target, quarterly_lts}
use budget_app.Js.{Number, Value, str, num, Row, put, loose_eq, parse}
use budget_app.Page.{Effect, invalidate}

abbrev pub Entries : Type 0 → Type 0
Entries N = List (String × Row N)

-- The rows of the totals, as far as they have been found.
pub record Totals (N : Type 0) : Type 0 where
  pub forecasts : Option (Row N)
  pub accruals : Option (Row N)
  pub targets : Option (Row N)
  pub left : Option (Row N)

-- `key.split(":")[0].trim()` and `key.split(":")[1].trim()`
unfoldable pub id_of : String → String
id_of key = elim (split b':' key) [ [] ↦ "" | id ∷ rest ↦ trim id ]

unfoldable pub kind_of : String → Option String
kind_of key = elim (get_elem? (split b':' key) 1) [ none ↦ none | some kind ↦ some (trim kind) ]

-- Whether the entry is counted after the project `prev`: not if `prev` occurs in its identifier and
-- is not all of it.
unfoldable pub is_counted : String → String → Bool
is_counted prev id =
    text_eq prev "" || text_eq id prev || (not (text_eq id prev) && not (contains id prev))

unfoldable pub next_project : String → String → String
next_project prev id = if contains id "." then prev else id

module _ {N : Type 0} ⦃n : Number N⦄ where
  -- The months and the total, `count` fields from `j` on, become zero.
  unfoldable pub zero_fields : ℕ → ℕ → Row N → Row N
  zero_fields zero j t = t
  zero_fields (suc count) j t = zero_fields count (j + 1) (put t j (num (n.of_nat 0)))

  -- The same fields of a row are added to those of the totals.
  unfoldable pub add_fields : ℕ → ℕ → Row N → Row N → Row N
  add_fields zero j d t = t
  add_fields (suc count) j d t =
      add_fields count (j + 1) d (put t j (num (n.add (parse (t j)) (parse (d j)))))

  unfoldable pub subtract_fields : ℕ → ℕ → Row N → Row N → Row N → Row N
  subtract_fields zero j a b t = t
  subtract_fields (suc count) j a b t =
      subtract_fields count (j + 1) a b (put t j (num (n.sub (parse (a j)) (parse (b j)))))

  -- A row of totals is found and set to zero.
  unfoldable pub found : String → Row N → Totals N → Totals N
  unfolding zero_fields
  found kind d t =
      let zeroed = some (zero_fields 13 12 d) in
      if text_eq kind forecast
      then record t { forecasts = zeroed }
      else if text_eq kind accrual
      then record t { accruals = zeroed }
      else if text_eq kind quarterly_target
      then record t { targets = zeroed }
      else if text_eq kind quarterly_lts
      then record t { left = zeroed }
      else t

  unfoldable pub find_totals : Totals N → Entries N → Option (Totals N)
  unfolding found kind_of
  find_totals t [] = some t
  find_totals t ((key, d) ∷ es) =
      let here = kind_of key >>= λ kind. find_totals (found kind d t) es in
      let later = find_totals t es in if loose_eq (d 26) (str "Total") then here else later

  -- A row is added to the totals of its kind.
  unfoldable pub add_entry : String → Row N → Totals N → Option (Totals N)
  unfolding add_fields
  add_entry kind d t =
      let to_forecasts =
        t.forecasts >>= λ f. some (record t { forecasts = some (add_fields 13 12 d f) }) in
      let to_accruals =
        t.accruals >>= λ a. some (record t { accruals = some (add_fields 13 12 d a) }) in
      let to_targets =
        t.targets >>= λ q. some (record t { targets = some (add_fields 13 12 d q) }) in
      if text_eq kind forecast
      then to_forecasts
      else if text_eq kind accrual && not (loose_eq (d 26) (str "New"))
      then to_accruals
      else if text_eq kind quarterly_target
      then to_targets
      else some t

  -- The loop over the entries, with `prevKey`.
  unfoldable pub add_entries : String → Totals N → Entries N → Option (Totals N)
  unfolding add_entry
  add_entries prev t [] = some t
  add_entries prev t ((key, d) ∷ es) =
      let id = id_of key in
      let skipped = add_entries prev t es in
      let counted = kind_of key >>= λ kind.
      add_entry kind d t >>= λ t'. add_entries (next_project prev id) t' es in
      if is_counted prev id && not (loose_eq (d 26) (str "Total")) then counted else skipped

  -- What is left, if the rows of all kinds are shown.
  unfoldable pub set_left : Bool → Totals N → Option (Totals N)
  unfolding subtract_fields
  set_left all_kinds t =
      let set = do
        l ← t.left
        q ← t.targets
        a ← t.accruals
        some (record t { left = some (subtract_fields 13 12 q a l) })
      in if all_kinds then set else some t

  -- `all_kinds` is whether `radioString` is "All".
  unfoldable pub calculate_total : Bool → Entries N → Option (Totals N × List (Effect N))
  unfolding find_totals add_entries set_left
  calculate_total all_kinds map = do
    t ← find_totals (record { forecasts = none; accruals = none; targets = none; left = none }) map
    t' ← add_entries "" t map
    t'' ← set_left all_kinds t'
    some (t'', invalidate ∷ [])
