-- ===== src/Edit/Kept/Whole.antt =====
-- war/scripts/editProjects.js, `updateMemCache` as a whole: what a row is.
use mathlib.Core.Option.{some-injective}
use budget_app.Base.{
  ℕ, ◌≡◌, subst, inl, inr, true, ◌&&◌, Option, some, List, [], ◌∷◌, get_elem?, ◌==◌, Bool-cases,
  arith, >>=-eq-some,
}
use budget_app.Constants.{brand_cell, po_number_cell, remark_cell, brand_field, forecast}
use budget_app.Edit.Brand.{BrandEdit, barred, opens, stores, brand_edit, copy_brand}
use budget_app.Edit.Cells.{Context, fixed_cell, is_month, key_of}
use budget_app.Edit.Confirmed.{ask-eq-some}
use budget_app.Edit.Kept.{SameRows, SameRows-refl, edit_rows-SameRows}
use budget_app.Edit.Loop.{edit_rows}
use budget_app.Edit.Remainder.{remainder}
use budget_app.Edit.Rows.{Change}
use budget_app.Edit.Update.{
  State, Setting, copy_remark, finish, edit_brand, edit_cells, edit_remark, edit_cell, confirm_po,
  update_mem_cache,
}
use budget_app.Js.{Number, Value, str, num, bool, Row, loose_eq}
use budget_app.Page.{Effect, alert, show, redraw}
use budget_app.Edit.Kept.Loops.{
  SameRows-trans, set_field-SameRows, copy_brand-SameRows, copy_remark-SameRows, remainder-SameRows,
}

module _ {N : Type 0} ⦃n : Number N⦄ where
  finish-SameRows :
      (cell : ℕ) (item : Row N) (cs : List (Change N)) (s s' : State N) (effects : List (Effect N))
      → finish cell item cs s ≡ some (s', effects)
      → SameRows s.rows s'.rows
  unfolding finish
  finish-SameRows cell item cs s s' effects h =
      elim (Bool-cases
        (loose_eq (item 37) (bool true) && loose_eq (item 11) (str forecast) && is_month cell)) [
          | inl e ↦
              let ((cs', es), hr, h1) =
                >>=-eq-some (remainder cell (num (n.of_nat 0)) (num (n.of_nat 0)) cs s.rows) _
                  (rw e at h) in
              subst (λ r. SameRows s.rows r.0.rows) (some-injective _ _ h1)
                (remainder-SameRows cell _ _ cs cs' s.rows es (ground (arith, e)) hr)
          | inr e ↦
              subst (λ r. SameRows s.rows r.0.rows) (some-injective _ _ (rw e at h))
                (SameRows-refl s.rows)
        ]

  edit_brand-SameRows :
      (set : Setting) (cell : ℕ) (item : Row N) (key : Value N) (s s' : State N)
      (effects : List (Effect N))
      → edit_brand set cell item key s ≡ some (s', effects)
      → SameRows s.rows s'.rows
  unfolding edit_brand
  edit_brand-SameRows set cell item key s s' effects h =
      let (b, hb, h1) = >>=-eq-some (brand_edit set.tab set.users key item s.popup) _ h in by b h1
    where
      by :
          (b : BrandEdit N)
          → ◌≡◌ {A = Option (State N × List (Effect N))}
              (elim b [
                | barred ↦ some (s, alert "Click on \"Smart WBS\" to add sub projects." ∷ [])
                | opens q ↦
                    some (record s { popup = q }, show "multibrandEdit" ∷ redraw ∷ show "back" ∷ [])
                | stores p cs ↦ finish cell item cs (record {
                  rows = copy_brand key (item brand_field) s.rows;
                  popup = p;
                  globals = s.globals;
                })
              ])
              (some (s', effects))
          → SameRows s.rows s'.rows
      by barred e =
          subst (λ r. SameRows s.rows r.0.rows) (some-injective _ _ e) (SameRows-refl s.rows)
      by (opens q) e =
          subst (λ r. SameRows s.rows r.0.rows) (some-injective _ _ e) (SameRows-refl s.rows)
      by (stores p cs) e =
          let ds = copy_brand key (item brand_field) s.rows in
          SameRows-trans s.rows ds s'.rows (copy_brand-SameRows key (item brand_field) s.rows) (
            finish-SameRows cell item cs (record { rows = ds; popup = p; globals = s.globals }) s'
              effects e)

  edit_remark-SameRows :
      (set : Setting) (cell : ℕ) (item : Row N) (key : Value N) (s s' : State N)
      (effects : List (Effect N))
      → edit_remark set cell item key s ≡ some (s', effects)
      → SameRows s.rows s'.rows
  unfolding edit_remark
  edit_remark-SameRows set cell item key s s' effects h =
      let (ds, hd, h1) = >>=-eq-some (copy_remark set.total_size item s.rows) _ h in
      SameRows-trans s.rows ds s'.rows (copy_remark-SameRows set.total_size item s.rows ds hd)
        (finish-SameRows cell item ((key, item cell) ∷ []) (record s { rows = ds }) s' effects h1)

  edit_cells-SameRows :
      (set : Setting) (cell : ℕ) (item : Row N) (key : Value N) (s s' : State N)
      (effects : List (Effect N))
      → edit_cells set cell item key s ≡ some (s', effects)
      → SameRows s.rows s'.rows
  unfolding edit_cells
  edit_cells-SameRows set cell item key s s' effects h =
      let c : Context N = record {
        cell = cell;
        item = item;
        key = key;
        value = item cell;
        quarter = set.quarter;
        before_cut_off = set.before_cut_off;
      } in
      let (r, hr, h1) = >>=-eq-some (edit_rows c s.globals s.rows) _ h in
      let loop = edit_rows-SameRows c s.globals s.rows r hr in
      elim (Bool-cases r.ended) [
        | inl e ↦ subst (λ t. SameRows s.rows t.0.rows) (some-injective _ _ (rw e at h1)) loop
        | inr e ↦ SameRows-trans s.rows r.rows s'.rows loop (
            finish-SameRows cell item r.changes (record s { rows = r.rows; globals = r.globals }) s'
              effects (rw e at h1))
      ]

  edit_cell-SameRows :
      (set : Setting) (cell fixed : ℕ) (item : Row N) (s s' : State N) (effects : List (Effect N))
      → edit_cell set cell fixed item s ≡ some (s', effects)
      → SameRows s.rows s'.rows
  unfolding edit_cell
  edit_cell-SameRows set cell fixed item s s' effects h =
      let (key, hk, h1) = >>=-eq-some (key_of item) _ h in
      elim (Bool-cases (fixed == remark_cell)) [
        | inl e ↦ edit_remark-SameRows set fixed item key s s' effects (rw e at h1)
        | inr e ↦ elim (Bool-cases (cell == brand_cell)) [
          | inl b ↦ edit_brand-SameRows set fixed item key s s' effects (rw (e, b) at h1)
          | inr b ↦ edit_cells-SameRows set fixed item key s s' effects (rw (e, b) at h1)
        ]
      ]

  -- An edit of a cell, whatever the cell, the answers and the outcome, keeps the rows in number and
  -- order, and keeps in each row its kind, status, identifier, project, group and multi-brand mark, the
  -- fields 11, 26, 27, 34, 35 and 37.
  pub update_mem_cache-SameRows :
      (set : Setting) (row cell at : ℕ) (s s' : State N) (effects : List (Effect N))
      → update_mem_cache set row cell at s ≡ some (s', effects)
      → SameRows s.rows s'.rows
  unfolding update_mem_cache confirm_po
  update_mem_cache-SameRows set row cell at s s' effects h =
      let (item, hi, h1) = >>=-eq-some (get_elem? s.rows at) _ h in
      let fixed = fixed_cell set.hidden cell in
      let rest = edit_cell-SameRows set cell fixed item s s' in
      elim (Bool-cases (fixed == po_number_cell)) [
        | inl po ↦ elim (Bool-cases set.accepted) [
          | inl said_yes ↦
              let (before, hb, _) =
                ask-eq-some _ (edit_cell set cell fixed item s) s' effects
                  (rw (po, said_yes) at h1) in
              rest before hb
          | inr said_no ↦
              subst (λ r. SameRows s.rows r.0.rows) (some-injective _ _ (rw (po, said_no) at h1))
                (set_field-SameRows at (str "") s.rows)
        ]
        | inr other ↦ rest effects (rw other at h1)
      ]
