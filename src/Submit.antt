-- ===== src/Submit.antt =====
-- war/scripts/editProjects.js, `submitProjects`: the projects entered since the page was loaded are
-- checked and sent. `none` stands for the `TypeError` of a method call on a missing value.
pub mod Ready
pub mod Sent
pub mod Answered
mod Tests
use budget_app.Base.{
  ℕ, zero, suc, ◌+◌, ◌*◌, Bool, true, false, ◌&&◌, not, String, Option, none, some, List, [], ◌∷◌,
  ◌++◌, ◌==◌, if◌then◌else◌, text_eq, concat, contains_fold, trim, ◌>>=◌,
}
use budget_app.Constants.{project_name_cell, brand_cell, po_number_cell}
use budget_app.Js.{
  Number, Value, str, num, bool, Row, put, to_string, to_string?, loose_eq, is_blank, parse,
}
use budget_app.Months.{fill_months, sum_months}
use budget_app.Page.{Item, Effect, alert, goto_cell, show, post, items, value, enable}

-- What the loop has found: the rows as it leaves them, those to be sent, `errStr`, the name of a
-- multi-brand project without sub-projects, `msg`, and the alerts.
pub record Findings (N : Type 0) : Type 0 where
  pub grid : List (Item N)
  pub stored : List (Item N)
  pub err : ℕ
  pub flagged : Option (Value N)
  pub msg : String
  pub effects : List (Effect N)

module _ {N : Type 0} where
  -- The alert of a row's code.
  unfoldable pub code_alerts : ℕ → ℕ → List (Effect N)
  code_alerts i code =
      if code == 2
      then alert "\"Project name\" can not be blank."
        ∷ goto_cell (i + 2) project_name_cell false
        ∷ []
      else if code == 4
      then alert "\"Brand\" can not be blank." ∷ goto_cell (i + 2) brand_cell false ∷ []
      else if code == 5
      then alert "Po Number cannot be same" ∷ goto_cell (i + 2) po_number_cell false ∷ []
      else if code == 6
      then alert "\"Project name\" and \"Brand\" can not be blank."
        ∷ goto_cell (i + 2) project_name_cell false
        ∷ []
      else []

  abbrev pub add_row : Item N → List (Effect N) → Findings N → Findings N
  add_row d told f = record f {
    grid = d ∷ f.grid;
    stored = d ∷ f.stored;
    effects = told ++ f.effects;
  }

module _ {N : Type 0} ⦃n : Number N⦄ where
  -- `v == 'undefined' || v.toString().trim() == ""`
  unfoldable pub is_missing : Value N → Option Bool
  is_missing v =
      if loose_eq v (str "undefined")
      then some true
      else (do s ← to_string? v; some (text_eq (trim s) ""))

  -- How many earlier rows have the same PO number, if there is one.
  unfoldable pub same_po : List (Item N) → Value N → ℕ
  same_po [] po = 0
  same_po (d ∷ ds) po = (if loose_eq (d.cells 8) po then 1 else 0) + same_po ds po

  unfoldable pub repeated_po : List (Item N) → Value N → ℕ
  unfolding same_po loose_eq
  repeated_po earlier po =
      if not (loose_eq po (str "undefined")) && not (loose_eq po (str ""))
      then same_po earlier po
      else 0

  -- Blank amounts of the sub-projects that have an owner become zero, and the amounts are summed.
  unfoldable pub sub_amounts : List (Row N) → List (Row N)
  sub_amounts [] = []
  sub_amounts (d ∷ ds) =
      (if not (loose_eq (d 7) (str "")) && is_blank (d 3) then put d 3 (num (n.of_nat 0)) else d)
      ∷ sub_amounts ds

  unfoldable pub sub_total : N → List (Row N) → N
  sub_total acc [] = acc
  sub_total acc (d ∷ ds) =
      sub_total
        (if not (loose_eq (d 7) (str "")) then n.add (parse (num acc)) (parse (d 3)) else acc) ds

  -- The same for the months.
  unfoldable pub fill_amounts : Item N → Item N
  unfolding sub_amounts fill_months
  fill_amounts d = record d { cells = fill_months 12 12 d.cells; subs = sub_amounts d.subs }

  -- Whether the months of a filled multi-brand project add up to less than its sub-projects.
  unfoldable pub is_short : Item N → Bool
  unfolding sub_total sum_months
  is_short d = n.lt (sum_months 12 12 (n.of_nat 0) d.cells) (sub_total (n.of_nat 0) d.subs)

  unfoldable pub with_name : String → Value N → String
  with_name msg name = concat msg (concat (if text_eq msg "" then "" else ", ") (to_string name))

  -- The tests of one row: whether it is to be divided and is not, whether it is a multi-brand
  -- project, and the code of what it lacks.
  unfoldable pub row_verdict : List (Item N) → Item N → Option (Bool × Bool × ℕ)
  row_verdict earlier d = do
    no_name ← is_missing (d.cells 2)
    no_brand ← is_missing (d.cells 6)
    brand ← to_string? (d.cells 6)
    let smart = contains_fold brand "smart wbs"
    let code =
        (if no_name then 2 else 0)
        + (if no_brand then 4 else 0)
        + 5 * repeated_po earlier (d.cells 8)
    some (
      smart && loose_eq (d.cells 37) (bool false),
      smart && loose_eq (d.cells 37) (bool true),
      code,
    )

  unfoldable pub settled : Bool → Item N → Item N
  settled multi d = if multi then fill_amounts d else d

  -- The loop, with `left` rows to go and the rows before row `i`.
  unfoldable pub check_rows : ℕ → ℕ → List (Item N) → String → List (Item N) → Option (Findings N)
  check_rows zero i earlier msg ds =
      some (record { grid = ds; stored = []; err = 0; flagged = none; msg = msg; effects = [] })
  check_rows (suc left) i earlier msg [] = none
  check_rows (suc left) i earlier msg (d ∷ ds) =
      row_verdict earlier d >>= λ (undivided, multi, code).
      let e = settled multi d in
      let msg' = if multi && is_short e then with_name msg (d.cells 2) else msg in
      let told = code_alerts i code in
      let stopped : Option (Findings N) = some (record {
        grid = e ∷ ds;
        stored = e ∷ [];
        err = code;
        flagged = none;
        msg = msg';
        effects = told;
      }) in
      let flag : Option (Findings N) = some (record {
        grid = d ∷ ds;
        stored = [];
        err = code;
        flagged = some (d.cells 2);
        msg = msg;
        effects = [];
      }) in
      let rest = check_rows left (i + 1) (earlier ++ (e ∷ [])) msg' ds in
      let later = rest >>= λ f. some (add_row e told f) in
      if undivided then flag else if code == 0 then later else stopped

  -- The projects whose months add up to less than their sub-projects.
  abbrev pub short_warning : Findings N → List (Effect N)
  short_warning f =
      if text_eq f.msg ""
      then []
      else alert (
          concat "For project(s) \""
            (concat f.msg "\" entered forecast total is less than allocated total."))
        ∷ []

  -- The request, or the message for a project without sub-projects.
  abbrev pub request : Value N → Findings N → List (Effect N)
  request cost f =
      let send : List (Effect N) =
        if f.err == 0
        then show "back"
          ∷ show "loader_image"
          ∷ post "/storereport" (("objarray", items f.stored) ∷ ("costCenter", value cost) ∷ [])
          ∷ []
        else enable "submitProjBtn" ∷ [] in
      elim f.flagged [
        | none ↦ send
        | some name ↦
            alert (concat "Please add sub-projects to your multibrand project: " (to_string name))
            ∷ []
      ]

  -- What follows the loop.
  unfoldable pub conclude : Value N → Findings N → List (Effect N)
  conclude cost f = f.effects ++ short_warning f ++ request cost f

  unfoldable pub submit_projects :
      Value N → ℕ → List (Item N) → Option (List (Item N) × List (Effect N))
  submit_projects cost addsave grid = do
    f ← check_rows addsave 0 [] "" grid
    some (f.grid, conclude cost f)
