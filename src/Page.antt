-- ===== src/Page.antt =====
-- What the page's parts share: the row objects of the grid, and the effects that a handler has on
-- the page and on the server, in the order in which it has them.
use budget_app.Base.{ℕ, ◌≡◌, refl, Bool, true, false, ◌||◌, String, List, [], ◌∷◌, ◌++◌, arith}
use budget_app.Js.{Value, Row}

-- An element of `data`, the grid's row objects. Fields 36 (the sub-projects entered in the pop-up)
-- and 53 (the identifiers of a project's sub-projects) hold arrays and stand apart.
pub record Item (N : Type 0) : Type 0 where
  pub id : String
  pub cells : Row N
  pub subs : List (Row N)
  pub children : List String

-- A value in the body of a request.
pub data Payload (N : Type 0) : Type 0 where
  value : Value N → Payload N
  rows : List (Row N) → Payload N
  items : List (Item N) → Payload N
  changes : List (Value N × Value N) → Payload N

pub data Effect (N : Type 0) : Type 0 where
  -- `alert(text)`, and the question of a `confirm(text)`
  alert : String → Effect N
  confirm : String → Effect N
  -- the text of the status line
  status : String → Effect N
  -- the element is shown, or hidden
  show : String → Effect N
  hide : String → Effect N
  -- the form is submitted
  submit : String → Effect N
  -- the element's value, text or background is set
  set_value : String → Value N → Effect N
  colour : String → String → Effect N
  -- `grid.invalidate()`, `grid.gotoCell(row, cell, edit)`, `window.location.reload(true)`
  invalidate : Effect N
  goto_cell : ℕ → ℕ → Bool → Effect N
  reload : Effect N
  -- `displayMultibrandGrid()`, and `summaryResult = text; getSummaryValues()`
  redraw : Effect N
  summarise : String → Effect N
  -- the button can be pressed again
  enable : String → Effect N
  -- a request to a servlet, with its parameters
  post : String → List (String × Payload N) → Effect N

module _ {N : Type 0} where
  abbrev pub is_post : Effect N → Bool
  is_post (post url body) = true
  is_post _ = false

  -- Whether there is a request among the effects.
  abbrev pub sends : List (Effect N) → Bool
  sends [] = false
  sends (e ∷ es) = is_post e || sends es

  pub sends-append : (xs ys : List (Effect N)) → sends (xs ++ ys) ≡ (sends xs || sends ys)
  sends-append [] ys = refl
  sends-append (x ∷ xs) ys = ground (arith, sends-append xs ys)
