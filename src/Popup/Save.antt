-- ===== src/Popup/Save.antt =====
-- `saveAndClose`: the checks, and what a table that passes them does to the clicked project, to the
-- pop-up and to the server. The month of today's date, the value of `#getCostCenter` and the flag
-- `disableGrid` are arguments.
pub mod Accepted
pub mod Divided
pub mod Refused
pub mod Blank
pub mod Kept
use budget_app.Base.{
  ℕ, zero, suc, ◌+◌, ◌-◌, Bool, true, false, ◌&&◌, ◌||◌, not, String, Option, none, some, List, [],
  ◌∷◌, ◌++◌, ◌==◌, comma_join, if◌then◌else◌, text_eq, concat, contains, ◌>>=◌,
}
use budget_app.Js.{Number, Value, str, num, bool, undefined, Row, put, to_string, loose_eq, parse}
use budget_app.Page.{
  Item, Effect, Payload, alert, hide, show, invalidate, reload, post, value, rows,
}
use budget_app.Popup.Rows.{Popup, cleared}
use budget_app.Popup.Checks.{scan, fill_names, unassigned, duplicates}

-- The message of the first check, from the index at which the loop stopped and from `errStr`.
unfoldable pub refusal : ℕ → String → Option String
refusal i err =
    if text_eq err ""
    then if i == 1 then some "Please enter atleast two sub-projects." else none
    else let blank = concat err " cannot be blank" in
      some (concat blank (if contains blank "Total" then " or zero." else "."))

module _ {N : Type 0} where
  -- `m_data[0][4]`
  abbrev pub first_name : List (Row N) → Value N
  first_name [] = undefined
  first_name (d ∷ ds) = d 4

  -- Whether an element of `data` has the identifier of the clicked one.
  unfoldable pub is_listed : String → List (Item N) → Bool
  is_listed id [] = false
  is_listed id (d ∷ ds) = (not (text_eq d.id "undefined") && text_eq d.id id) || is_listed id ds

  -- What follows the answer of the servlet: success or an error.
  pub save_answered : Bool → List (Effect N)
  save_answered true = alert "Project(s) created successfully!!!" ∷ reload ∷ []
  save_answered false = hide "back" ∷ hide "loader_image" ∷ []

module _ {N : Type 0} ⦃n : Number N⦄ where
  -- The sum of the amounts, up to the first row with no project name.
  unfoldable pub sum_amounts : N → List (Row N) → N
  sum_amounts acc [] = acc
  sum_amounts acc (d ∷ ds) =
      let rest = sum_amounts (n.add (parse (num acc)) (parse (d 3))) ds in
      if loose_eq (d 4) (str "") then acc else rest

  -- `for (i = from; i < from + count; i++) itemClicked[i] = 0.0`
  unfoldable pub zero_cells : ℕ → ℕ → Row N → Row N
  zero_cells zero from d = d
  zero_cells (suc count) from d = zero_cells count (from + 1) (put d from (num (n.of_nat 0)))

  -- The alerts of the two later checks.
  unfoldable pub brand_alerts : Option (Row N) → List (Effect N)
  brand_alerts none = []
  brand_alerts (some d) =
      alert (
        concat "User : "
          (concat (to_string (d 7)) (concat " is not assigned to the brand : " (to_string (d 1)))))
      ∷ []

  unfoldable pub twin_alerts : List String → List (Effect N)
  twin_alerts [] = []
  twin_alerts ks =
      alert (concat (comma_join ks) ": Duplicate Project owner and Brand combination.") ∷ []

  -- The clicked project becomes a multi-brand one with these sub-projects; the months from the
  -- current one on are emptied, and field 51 gets the total.
  unfoldable pub divide : ℕ → Bool → List (Row N) → Item N → Item N
  unfolding zero_cells sum_amounts
  divide month listed ds item =
      let total = if listed then sum_amounts (n.of_nat 0) ds else n.of_nat 0 in
      let marked = if listed then put item.cells 37 (bool true) else item.cells in
      record item {
        cells = zero_cells (12 - month) (12 + month) (put marked 51 (num total));
        subs = if listed then ds else item.subs;
      }

  -- The request of a project that is stored already.
  unfoldable pub save_request : Bool → Value N → List (Row N) → Item N → List (Effect N)
  save_request disable_grid cost ds item =
      if loose_eq (item.cells 34) (str "New projects")
      then []
      else (if disable_grid then show "back" ∷ show "loader_image" ∷ [] else [])
        ++ post "/multiBrandServlet" (
            ("objarray", rows ds)
            ∷ ("costCenter", value cost)
            ∷ ("sumTotal", value (item.cells 51))
            ∷ [])
          ∷ []

  -- The rows and the effects after the first check has passed.
  unfoldable pub accept :
      ℕ → Bool → Value N → List (Item N) → Popup N → List String → Popup N × List (Effect N)
  accept month disable_grid cost grid_rows p repeated =
      let alerts = brand_alerts (unassigned p.users p.rows) ++ twin_alerts repeated in
      let item = divide month (is_listed p.clicked.id grid_rows) p.rows p.clicked in
      let done : Popup N × List (Effect N) = (
        record p { rows = cleared p.rows; clicked = item },
        hide "multibrandEdit"
            ∷ hide "back"
            ∷ invalidate
            ∷ save_request disable_grid cost p.rows item,
      ) in
      elim alerts [ [] ↦ done | a ∷ more ↦ (p, a ∷ more) ]

  unfoldable pub save_and_close :
      ℕ → Bool → Value N → List (Item N) → Popup N → Option (Popup N × List (Effect N))
  save_and_close month disable_grid cost grid_rows p = do
    (i, err, ds) ← scan (p.clicked.cells 1) p.rows
    let named = fill_names (first_name ds) ds
    let q : Popup N = record p { rows = named; tags = "Smart WBS" ∷ p.tags }
    elim (refusal i err) [
      | some text ↦ some (record p { rows = ds }, alert text ∷ [])
      | none ↦ (do
        repeated ← duplicates named
        some (accept month disable_grid cost grid_rows q repeated))
    ]
