-- ===== src/Formatters/Amounts.antt =====
-- Amounts: `DollarFormatter`, `DollarFormatterMB`, `BudgetFormatter`, and `RemarkFormatter`. The current
-- month is an argument.
use budget_app.Base.{
  ℕ, zero, suc, ◌+◌, ◌-◌, Bool, true, false, ◌&&◌, ◌||◌, not, String, Option, none, some, List, [],
  ◌∷◌, get_elem?, if◌then◌else◌, text_eq, concat, contains, ◌>>=◌,
}
use budget_app.Constants.{forecast}
use budget_app.Js.{Number, Value, undefined, str, Row, to_string?, trim?, as_number, loose_eq}

abbrev pub month_names : List String
month_names =
    "JAN" ∷ "FEB" ∷ "MAR" ∷ "APR" ∷ "MAY" ∷ "JUN" ∷ "JUL" ∷ "AUG" ∷ "SEP" ∷ "OCT" ∷ "NOV" ∷ "DEC"
    ∷ []

-- Whether the name is one of the `count` months from number `i` on.
unfoldable pub is_among : ℕ → ℕ → String → Bool
is_among zero i name = false
is_among (suc count) i name =
    let later = is_among count (i + 1) name in
    (elim (get_elem? month_names i) [ none ↦ false | some m ↦ text_eq name m ]) || later

module _ {N : Type 0} ⦃n : Number N⦄ where
  -- `v.toString().indexOf(".") != -1`
  unfoldable pub has_point? : Value N → Option Bool
  has_point? v = do s ← to_string? v; some (contains s ".")

  -- An amount, and an amount that is drawn as one that can be changed.
  unfoldable pub plain : Value N → String
  plain v = concat "<span style='color:#2271B0'> " (concat (n.to_fixed (as_number v)) "</span>")

  unfoldable pub shaded : Value N → String
  unfolding plain
  shaded v = concat "<div width = '100%' style='background:#C0CCED'>" (concat (plain v) "</div>")

  unfoldable pub bold : Value N → String
  bold v =
      concat
        "<span style='color:#339966; height: 25px; width: 120px; font-weight: bold; font-style: italic;'> "
        (concat (n.to_fixed (as_number v)) "</span>")

  -- The two loops over the months of an open forecast.
  unfoldable pub by_month : ℕ → String → Value N → Value N
  unfolding is_among
  by_month month name v =
      if is_among month 0 name
      then str (plain v)
      else if is_among (12 - month) month name
      then str (shaded v)
      else undefined

  -- `name` is that of the column.
  unfoldable pub dollar : ℕ → String → Row N → Value N → Option (Value N)
  unfolding by_month has_point?
  dollar month name d v =
      let is_new = loose_eq (d 35) (str "NewProjects") in
      let is_total = loose_eq (d 26) (str "Total") || text_eq name "Total" in
      let own_forecast = if loose_eq (d 11) (str forecast) then has_point? (d 0) else some true in
      let rest =
        own_forecast >>= λ part. some (if part then str (plain v) else by_month month name v) in
      if loose_eq (d 35) (str "Buttons")
      then some undefined
      else if is_new && not (text_eq name "Total")
      then some (str (shaded v))
      else if is_total
      then some (str (bold v))
      else if loose_eq (d 26) (str "Closed")
      then some (str (plain v))
      else rest

  -- A row of the pop-up.
  unfoldable pub dollar_mb : Row N → Value N → Option (Value N)
  dollar_mb d v = do
    brand ← trim? (d 1)
    let by_share = do
      share ← trim? (d 2)
      some (if text_eq share "" then undefined else str (plain v))
    if text_eq brand "" then by_share else some (str (plain v))

  unfoldable pub budget : Row N → Value N → Value N
  budget d v =
      if not (loose_eq v (str ""))
      then str (concat "<span style='color:#2271B0'>" (concat (n.to_fixed (as_number v)) "</span>"))
      else if loose_eq (d 25) (str "Added")
      then str (concat "<span style='color:#2271B0'>" (concat (n.to_fixed (n.of_nat 0)) "</span>"))
      else undefined

  unfoldable pub remark : Value N → Option String
  remark (str s) =
      let colour = if contains s "Note:" then "red" else "green" in
      some (concat "<span style='color:" (concat colour (concat "'>" (concat s "</span>"))))
  remark v = none
