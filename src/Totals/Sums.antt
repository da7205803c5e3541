-- ===== src/Totals/Sums.antt =====
-- What the rows of totals in war/scripts/editProjects.js, `calculateTotal`, are to hold: sums over some of
-- the entries, told apart by their keys.
use budget_app.Base.{
  ℕ, Bool, false, ◌&&◌, ◌||◌, not, String, Option, none, some, List, [], ◌∷◌, get_elem?,
  if◌then◌else◌, text_eq, contains, split, trim,
}
use budget_app.Js.{Number, Value, str, num, Row, loose_eq, parse}
use budget_app.Totals.{Entries, Totals}

-- The rows that are sums.
pub data Sum : Type 0 where
  of_forecasts : Sum
  of_accruals : Sum
  of_targets : Sum

-- The parts of a key such as "307.1:Forecast".
abbrev pub project_of : String → String
project_of key = elim (split b':' key) [ [] ↦ "" | id ∷ rest ↦ trim id ]

-- Whether an identifier is passed over as a part of the last whole project that was added: it is
-- another text in which that one occurs.
abbrev pub is_passed_over : String → String → Bool
is_passed_over whole id = not (text_eq whole "") && (not (text_eq id whole) && contains id whole)

module _ {N : Type 0} ⦃n : Number N⦄ where
  -- What is added to a sum: accruals only of projects that are not new.
  abbrev pub belongs : Sum → String → Row N → Bool
  belongs of_forecasts kind d = text_eq kind "Forecast"
  belongs of_accruals kind d = text_eq kind "Accrual" && not (loose_eq (d 26) (str "New"))
  belongs of_targets kind d = text_eq kind "Quarterly Target"

  abbrev pub is_of : Sum → String → Row N → Bool
  is_of w key d = elim (get_elem? (split b':' key) 1) [
    | none ↦ false
    | some kind ↦ belongs w (trim kind) d
  ]

  -- The rows that a sum is made of: those of no totals that are not passed over, of its kind. A whole
  -- project, whose identifier has no point, is the last one for the entries behind it.
  abbrev pub entered : Sum → String → Entries N → List (Row N)
  entered w whole [] = []
  entered w whole ((key, d) ∷ es) =
      let id = project_of key in
      let skipped = entered w whole es in
      let later = entered w (if contains id "." then whole else id) es in
      if is_passed_over whole id || loose_eq (d 26) (str "Total")
      then skipped
      else if is_of w key d
      then d ∷ later
      else later

  -- A value with one field of some rows added, from left to right.
  abbrev pub sum_from : ℕ → Value N → List (Row N) → Value N
  sum_from i v [] = v
  sum_from i v (d ∷ ds) = sum_from i (num (n.add (parse v) (parse (d i)))) ds

  abbrev pub row_of : Sum → Totals N → Option (Row N)
  row_of of_forecasts t = t.forecasts
  row_of of_accruals t = t.accruals
  row_of of_targets t = t.targets
