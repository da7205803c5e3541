-- ===== src/Session.antt =====
-- The page between two loads: projects are entered, the groups get their rows, cells are edited, and
-- the projects are submitted, in any order. `Create`, `Edit` and `Submit` have the handlers. An
-- editor first writes what was typed into its cell, and then the edit of the cell is handled. A
-- save or a close of the pop-up works on a row of the grid. `failed` is the error of an edit's request.
pub mod Entered
pub mod Checked
pub mod Changed
pub mod Steps
pub mod Posted
mod Tests
use budget_app.Base.{
  ℕ, zero, suc, ◌≡◌, Bool, true, ◌||◌, String, some, List, [], ◌∷◌, ◌≤◌, get_elem?, map, leb, ◌==◌,
}
use budget_app.Edit.Update.{State, Setting, update_mem_cache, edit_failed}
use budget_app.Edit.Cells.{Context}
use budget_app.Create.{Grid, create_new, create_int, dummy_active, dummy_closed}
use budget_app.Js.{Number, Value, Row, put}
use budget_app.Page.{Item, Effect}
use budget_app.Popup.Close.{close_without_save}
use budget_app.Popup.Rows.{Popup}
use budget_app.Popup.Save.{save_and_close}
use budget_app.Submit.{submit_projects}

-- The fields of the grid's columns, war/editProjects.jsp
abbrev pub is_column : ℕ → Bool
is_column field = leb field 25 || field == 30 || field == 49

module _ {N : Type 0} where
  -- `item[field] = v` in the row at a position
  abbrev pub type_into : ℕ → ℕ → Value N → List (Item N) → List (Item N)
  type_into at field v [] = []
  type_into zero field v (d ∷ ds) = record d { cells = put d.cells field v } ∷ ds
  type_into (suc at) field v (d ∷ ds) = d ∷ type_into at field v ds

  -- The cells of the rows are replaced.
  abbrev pub with_cells : List (Row N) → List (Item N) → List (Item N)
  with_cells (e ∷ es) (d ∷ ds) = record d { cells = e } ∷ with_cells es ds
  with_cells _ ds = ds

  -- The row at a position is replaced.
  abbrev pub replace : ℕ → Item N → List (Item N) → List (Item N)
  replace at e [] = []
  replace zero e (d ∷ ds) = e ∷ ds
  replace (suc at) e (d ∷ ds) = d ∷ replace at e ds

module _ {N : Type 0} ⦃n : Number N⦄ where
  pub data Step : Grid N → Grid N → Type 0 where
    created : (user : String) (g : Grid N) → Step g (create_new user g).0
    created_int :
        (user : String) (g g' : Grid N) (effects : List (Effect N))
        → create_int user g ≡ some (g', effects)
        → Step g g'
    listed_active : (g : Grid N) → Step g (dummy_active g)
    listed_closed : (g : Grid N) → Step g (dummy_closed g)
    typed :
        (g : Grid N) (at field : ℕ) (v : Value N)
        → is_column field ≡ true
        → Step g (record g { rows = type_into at field v g.rows })
    edited :
        (set : Setting) (row cell at : ℕ) (g : Grid N) (s s' : State N) (effects : List (Effect N))
        → s.rows ≡ map (λ d. d.cells) g.rows
        → update_mem_cache set row cell at s ≡ some (s', effects)
        → Step g (record g { rows = with_cells s'.rows g.rows })
    saved :
        (month : ℕ) (disable_grid : Bool) (cost : Value N) (g : Grid N) (at : ℕ) (p p' : Popup N)
        (effects : List (Effect N))
        → month ≤ 11
        → get_elem? g.rows at ≡ some p.clicked
        → save_and_close month disable_grid cost g.rows p ≡ some (p', effects)
        → Step g (record g { rows = replace at p'.clicked g.rows })
    closed :
        (accepted : Bool) (g : Grid N) (at : ℕ) (p : Popup N)
        → get_elem? g.rows at ≡ some p.clicked
        → Step g (record g { rows = replace at (close_without_save accepted p).0.clicked g.rows })
    failed :
        (c : Context N) (g : Grid N)
        → Step g
            (record g { rows = with_cells (edit_failed c (map (λ d. d.cells) g.rows)).0 g.rows })
    submitted :
        (cost : Value N) (g : Grid N) (rows : List (Item N)) (effects : List (Effect N))
        → submit_projects cost g.addsave g.rows ≡ some (rows, effects)
        → Step g (record g { rows = rows })

  -- What a page becomes in a number of steps.
  pub data Reach (g : Grid N) : Grid N → Type 0 where
    here : Reach g g
    next : {h k : Grid N} → Reach g h → Step h k → Reach g k
