-- ===== src/Edit/Undivided.antt =====
-- war/scripts/editProjects.js, `updateMemCache`: edits of a cell that is neither the brand nor the remark,
-- and not a month of a divided project's forecast, so that nothing is shared out again after the loop.
use mathlib.Core.Option.{some-injective}
use budget_app.Base.{
  ℕ, ◌≡◌, sym, ap, ◌⊎◌, inl, inr, true, false, ◌&&◌, some, List, get_elem?, ◌==◌, Bool-cases,
  >>=-eq-some,
}
use budget_app.Constants.{brand_cell, po_number_cell, remark_cell, forecast}
use budget_app.Edit.Cells.{Context, fixed_cell, is_month, key_of}
use budget_app.Edit.Confirmed.{ask-eq-some}
use budget_app.Edit.Loop.{Edited, edit_rows}
use budget_app.Edit.Update.{
  State, Setting, set_field, finish, edit_cells, edit_cell, confirm_po, update_mem_cache,
}
use budget_app.Js.{Number, Value, str, bool, Row, loose_eq}
use budget_app.Page.{Effect}

module _ {N : Type 0} ⦃n : Number N⦄ where
  -- What the loop is given.
  abbrev pub context : Setting → ℕ → Row N → Value N → Context N
  context set fixed item key = record {
    cell = fixed;
    item = item;
    key = key;
    value = item fixed;
    quarter = set.quarter;
    before_cut_off = set.before_cut_off;
  }

  -- The edited row and cell, by the row's key.
  pub record IsUndivided (set : Setting) (cell at : ℕ) (s : State N) (item : Row N) (key : Value N)
      : Type 0 where
    pub edited : get_elem? s.rows at ≡ some item
    pub keyed : key_of item ≡ some key
    pub no_remark : (fixed_cell set.hidden cell == remark_cell) ≡ false
    pub no_brand : (cell == brand_cell) ≡ false
    pub whole :
        (loose_eq (item 37) (bool true)
          && loose_eq (item 11) (str forecast)
          && is_month (fixed_cell set.hidden cell))
        ≡ false

  edit_cells-edit_rows :
      (set : Setting) (fixed : ℕ) (item : Row N) (key : Value N) (s s' : State N)
      (effects : List (Effect N))
      → (loose_eq (item 37) (bool true) && loose_eq (item 11) (str forecast) && is_month fixed)
        ≡ false
      → edit_cells set fixed item key s ≡ some (s', effects)
      → (r : Edited N) × (edit_rows (context set fixed item key) s.globals s.rows ≡ some r)
        × (s'.rows ≡ r.rows)
  unfolding edit_cells finish
  edit_cells-edit_rows set fixed item key s s' effects whole h =
      let (r, hr, h1) = >>=-eq-some (edit_rows (context set fixed item key) s.globals s.rows) _ h in
      elim (Bool-cases r.ended) [
        | inl e ↦ (r, hr, ap (λ t. t.0.rows) (sym (some-injective _ _ (rw e at h1))))
        | inr e ↦ (r, hr, ap (λ t. t.0.rows) (sym (some-injective _ _ (rw (e, whole) at h1))))
      ]

  -- The rows after such an edit are those that the loop leaves, but for a PO number that is not
  -- confirmed, which is emptied in the edited row.
  pub update-edit_rows :
      (set : Setting) (row cell at : ℕ) (s s' : State N) (effects : List (Effect N)) (item : Row N)
      (key : Value N)
      → IsUndivided set cell at s item key
      → update_mem_cache set row cell at s ≡ some (s', effects)
      → ((r : Edited N) × (edit_rows
              (context set (fixed_cell set.hidden cell) item key)
              s.globals
              s.rows
            ≡ some r)
          × (s'.rows ≡ r.rows))
        ⊎ (((fixed_cell set.hidden cell == po_number_cell) ≡ true)
            × (s'.rows ≡ set_field at 8 (str "") s.rows))
  unfolding update_mem_cache confirm_po edit_cell
  update-edit_rows set row cell at s s' effects item key u h =
      let fixed = fixed_cell set.hidden cell in
      let h1 = rw (u.edited) at h in
      let cells : (fs : List (Effect N))
          → edit_cell set cell fixed item s ≡ some (s', fs)
          → (r : Edited N) × (edit_rows (context set fixed item key) s.globals s.rows ≡ some r)
            × (s'.rows ≡ r.rows) =
        λ fs e.
          edit_cells-edit_rows set fixed item key s s' fs u.whole
            (rw (u.keyed, u.no_remark, u.no_brand) at e) in
      elim (Bool-cases (fixed == po_number_cell)) [
        | inl po ↦ elim (Bool-cases set.accepted) [
          | inl said_yes ↦
              let (before, hb, _) =
                ask-eq-some _ (edit_cell set cell fixed item s) s' effects
                  (rw (po, said_yes) at h1) in
              inl (cells before hb)
          | inr said_no ↦
              inr (po, ap (λ t. t.0.rows) (sym (some-injective _ _ (rw (po, said_no) at h1))))
        ]
        | inr other ↦ inl (cells effects (rw other at h1))
      ]
