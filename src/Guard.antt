-- ===== src/Guard.antt =====
-- war/editProjects.jsp, the handler of `grid.onBeforeEditCell`: which cells of which rows may be
-- edited, and the copies that are made of them before. What the page knows of its state (the status
-- message, the overlay, the columns on show and the month of the server) is an argument; every
-- column that a cell stands in has a name.
pub mod Past
pub mod Current
pub mod Decided
pub mod Open
mod Tests
use budget_app.Base.{
  zero, suc, ℕ, ◌+◌, Bool, true, false, not, ◌&&◌, ◌||◌, String, Option, none, some, List, [], ◌∷◌,
  map, if◌then◌else◌, text_eq, concat, contains, before, leb, ltb, ◌==◌, codes, ◌>>=◌,
}
use budget_app.Constants.{
  brand_cell, jan_cell, dec_cell, number_of_hidden_columns, forecast, accrual,
}
use budget_app.Js.{
  Number, Value, undefined, str, num, bool, Row, put, to_string?, as_number, loose_eq,
}

-- What the handler reads of the page.
pub record Screen : Type 0 where
  pub is_saving : Bool
  pub is_covered : Bool
  pub hides_columns : Bool
  pub month : ℕ
  pub column : ℕ → String

-- What the handler leaves: the row, its fields 45 and 46, and whether the cell opens.
pub record Outcome (N : Type 0) : Type 0 where
  pub row : Row N
  pub months : Option (List (Value N))
  pub copy : Option (Row N)
  pub is_warned : Bool
  pub is_redrawn : Bool
  pub is_allowed : Bool

-- `monthArray`
abbrev pub month_array : List String
month_array =
    "JAN" ∷ "FEB" ∷ "MAR" ∷ "APR" ∷ "MAY" ∷ "JUN" ∷ "JUL" ∷ "AUG" ∷ "SEP" ∷ "OCT" ∷ "NOV" ∷ "DEC"
    ∷ []

-- `s > t` on two texts, by their characters
after_codes : List ℕ → List ℕ → Bool
after_codes [] t = false
after_codes (c ∷ s) [] = true
after_codes (c ∷ s) (d ∷ t) = if c == d then after_codes s t else ltb d c

-- The months from the i-th on.
unfoldable pub from_month : ℕ → List String → List String
from_month zero ms = ms
from_month (suc i) [] = []
from_month (suc i) (m ∷ ms) = from_month i ms

-- The loop over the months: `cols[cell].name == monthArray[i]`
unfoldable pub matches_month : String → List String → Bool
matches_month name [] = false
matches_month name (m ∷ ms) = text_eq name m || matches_month name ms

-- The columns of a project that have no condition on the month.
abbrev pub is_detail : String → Bool
is_detail name =
    text_eq name "Project Name"
    || text_eq name "Project WBS"
    || text_eq name "SubActivity"
    || text_eq name "Vendor"
    || text_eq name "Units"

abbrev pub stands_in_month : ℕ → Bool
stands_in_month fixed = leb jan_cell fixed && leb fixed dec_cell

-- The tests in their order; those after the second may throw.
unfoldable pub decide_edit :
    Bool → Bool → Option Bool → (Bool → Bool) → Option ℕ → (ℕ → Bool) → Option Bool
decide_edit a b id detail first later =
    let rest = do
      x ← id
      let last = do i ← first; some (later i)
      if detail x then some true else last
    in if a then some true else if b then some true else rest

module _ {N : Type 0} ⦃n : Number N⦄ where
  -- `v > t`
  unfoldable pub is_after : Value N → String → Bool
  unfolding after_codes
  is_after (str s) t = after_codes (codes s) (codes t)
  is_after v t = n.lt (n.to_number t) (as_number v)

  -- `item[38].split("-")[0]`; only a text has the method `split`.
  unfoldable pub create_year : Value N → Option String
  create_year (str s) = some (before b'-' s)
  create_year v = none

  abbrev pub is_forecast_row : Row N → Bool
  is_forecast_row d = loose_eq (d 11) (str forecast)

  abbrev pub is_accrual_row : Row N → Bool
  is_accrual_row d = loose_eq (d 11) (str accrual)

  abbrev pub has_status : Row N → String → Bool
  has_status d s = loose_eq (d 26) (str s)

  -- `isAnEditableId`
  unfoldable pub is_an_editable_id : ℕ → Row N → Option Bool
  is_an_editable_id cell d =
      if is_forecast_row d
      then (do s ← to_string? (d 0); some (not (contains s ".") && (cell == 4)))
      else some false

  -- The first month that can be edited.
  unfoldable pub first_month : ℕ → Row N → Option ℕ
  unfolding create_year is_after
  first_month month d = do
    year ← create_year (d 38)
    some (if is_after (d 39) year then 0 else month)

  -- The four tests for the cells of a stored project: the brand, the order number, the details, and
  -- the months and comments.
  unfoldable pub opens_brand : ℕ → Row N → Bool
  opens_brand cell d = (cell == brand_cell) && (is_forecast_row d && has_status d "New")

  unfoldable pub opens_po : String → Row N → Bool
  opens_po name d =
      is_forecast_row d
      && (text_eq name "PO Number" && (not (has_status d "Total") && has_status d "New"))

  unfoldable pub opens_detail : String → Row N → Bool → Bool
  opens_detail name d id =
      is_forecast_row d
      && ((is_detail name || id)
          && (not (has_status d "Total") && (has_status d "New" || has_status d "Active")))

  unfoldable pub opens_later : String → Row N → ℕ → Bool
  unfolding from_month matches_month
  opens_later name d i =
      (matches_month name (from_month i month_array) || text_eq name "Comments")
      && (is_forecast_row d && not (has_status d "Total"))

  -- The cells of a stored project that open.
  unfoldable pub may_edit_project : Screen → ℕ → Row N → Option Bool
  unfolding decide_edit is_an_editable_id first_month opens_brand opens_po opens_detail opens_later
  may_edit_project s cell d =
      let name = s.column cell in
      decide_edit (opens_brand cell d) (opens_po name d) (is_an_editable_id cell d)
        (opens_detail name d) (first_month s.month d) (opens_later name d)

  -- The cells of a project that is being entered.
  unfoldable pub may_edit_new : Screen → ℕ → Row N → Bool
  may_edit_new s cell d =
      let name = s.column cell in
      if text_eq name "$ in 1000's" || text_eq name "Status" || text_eq name "Allocation %"
      then false
      else not (loose_eq (d 35) (str "Buttons"))

  -- Of a project shared by brands, the accruals of the whole and the other rows of the parts.
  abbrev pub is_locked : Bool → Row N → Bool
  is_locked part d =
      (not part && (loose_eq (d 37) (bool true) && is_accrual_row d))
      || (part && (loose_eq (d 37) (bool true) && not (is_accrual_row d)))

  -- The row after field 50 is written.
  abbrev pub keep_amount : Bool → ℕ → Row N → Row N
  keep_amount part fixed d =
      if part && (loose_eq (d 37) (bool true) && is_accrual_row d) then put d 50 (d fixed) else d

  -- The row after field 43 is written.
  abbrev pub keep_month : Bool → ℕ → Row N → Row N
  keep_month redrawn fixed d = if redrawn then put d 43 (d fixed) else d

  -- `alert("You are not authorised to edit this project !!!")`
  abbrev pub is_foreign : Row N → Bool
  is_foreign d =
      (has_status d "Active" || has_status d "New")
      && (is_accrual_row d && (not (loose_eq (d 48) undefined) && not (loose_eq (d 48) (str ""))))

  abbrev pub month_cells : Row N → List (Value N)
  month_cells d = map d (12 ∷ 13 ∷ 14 ∷ 15 ∷ 16 ∷ 17 ∷ 18 ∷ 19 ∷ 20 ∷ 21 ∷ 22 ∷ 23 ∷ [])

  abbrev pub outcome : Row N → Option (List (Value N)) → Option (Row N) → Bool → Bool → Outcome N
  outcome d months copy redrawn allowed = record {
    row = d;
    months = months;
    copy = copy;
    is_warned = false;
    is_redrawn = redrawn;
    is_allowed = allowed;
  }

  abbrev pub warned : Row N → Row N → Outcome N
  warned d copy = record {
    row = d;
    months = none;
    copy = some copy;
    is_warned = true;
    is_redrawn = false;
    is_allowed = false;
  }

  -- The answer for a row that is neither closed nor foreign.
  unfoldable pub answer : Screen → ℕ → ℕ → Bool → Row N → Row N → Option (Outcome N)
  unfolding may_edit_project may_edit_new
  answer s cell fixed part copy d =
      let months = if stands_in_month fixed then some (month_cells d) else none in
      let redrawn = is_accrual_row d && (has_status d "Active" && stands_in_month fixed) in
      let kept = keep_month redrawn fixed d in
      if loose_eq (d 34) (str "New projects")
      then some (outcome d months (some copy) false (may_edit_new s cell d))
      else if is_locked part kept
      then some (outcome kept months (some copy) redrawn false)
      else do
        allowed ← may_edit_project s cell kept
        some (outcome kept months (some copy) redrawn allowed)

  -- The answer for a row that is not closed.
  unfoldable pub weigh : Screen → ℕ → ℕ → Row N → Option (Outcome N)
  unfolding answer
  weigh s cell fixed d = do
    key ← to_string? (d 27)
    let part = contains key "."
    let kept = keep_amount part fixed d
    if is_foreign kept then some (warned kept d) else answer s cell fixed part d kept

  -- The handler.
  unfoldable pub before_edit : Screen → ℕ → Row N → Option (Outcome N)
  unfolding weigh
  before_edit s cell d =
      let fixed = if s.hides_columns then cell + number_of_hidden_columns else cell in
      if s.is_saving || s.is_covered
      then some (outcome d none none false false)
      else if has_status d "Closed"
      then some (outcome d none (some d) false false)
      else weigh s cell fixed d
