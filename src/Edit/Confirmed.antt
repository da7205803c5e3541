-- ===== src/Edit/Confirmed.antt =====
-- war/scripts/editProjects.js, `updateMemCache`: the confirmation of a PO number.
use mathlib.Core.Option.{some-injective}
use budget_app.Base.{
  ℕ, ◌≡◌, refl, sym, ap, ◌∙◌, inl, inr, Bool, true, false, ◌&&◌, Option, none, some, List, [], ◌∷◌,
  get_elem?, arith, ◌==◌, Bool-cases, Option-cases, >>=-eq-some,
}
use budget_app.Constants.{project_name_cell, po_number_cell, brand_cell, forecast, quarterly_target}
use budget_app.Edit.Cells.{
  Context, Globals, fixed_cell, is_month, is_open, is_live, matches, key_of,
}
use budget_app.Edit.Frame.{edit_rows-cons}
use budget_app.Edit.Loop.{Edited, edit_rows}
use budget_app.Edit.Rows.{
  Change, Turn, going, halted, copied_field, is_text_cell, copy_field, first_part, note_month,
}
use budget_app.Edit.Update.{
  State, Setting, auto_save, finish, edit_cells, ask, edit_cell, confirm_po, update_mem_cache,
}
use budget_app.Js.{Number, Value, str, bool, Row, loose_eq}
use budget_app.Page.{Effect, sends}

text-is_copied :
    (cell : ℕ)
    → (cell == project_name_cell) ≡ false
    → is_text_cell cell ≡ true
    → (f : ℕ) × (copied_field cell ≡ some f)
unfolding is_text_cell copied_field
text-is_copied cell h t = elim (Option-cases (copied_field cell)) [
  | inl none_copied ↦ absurd (ground arith)
  | inr (f, e) ↦ (f, e)
]

po-is_no_brand :
    (hidden : Bool) (cell : ℕ)
    → fixed_cell hidden cell ≡ po_number_cell
    → (cell == brand_cell) ≡ false
unfolding fixed_cell
po-is_no_brand hidden cell h = ground arith

module _ {N : Type 0} ⦃n : Number N⦄ where
  going-halted :
      {d e : Row N} {cs : List (Change N)}
      → ◌≡◌ {A = Option (Turn N)} (some (going d cs)) (some (halted e))
      → ⊥
  going-halted h = cc

  copy_field-not_halted :
      (c : Context N) (d e : Row N)
      → (c.cell == project_name_cell) ≡ false
      → is_text_cell c.cell ≡ true
      → copy_field c d ≡ some (halted e)
      → ⊥
  unfolding copy_field
  copy_field-not_halted c d e h t q =
      let (f, ef) = text-is_copied c.cell h t in going-halted (rw (ef, copy_field) at q)

  -- Only an edit of a name is ended by an alert.
  first_part-not_halted :
      (c : Context N) (d e : Row N)
      → (c.cell == project_name_cell) ≡ false
      → first_part c d ≡ some (halted e)
      → ⊥
  unfolding first_part
  first_part-not_halted c d e h q = elim (Bool-cases (matches c forecast d && is_month c.cell)) [
    | inl a ↦ going-halted (rw a at q)
    | inr b ↦ elim (Bool-cases (matches c forecast d && is_text_cell c.cell)) [
      | inl t ↦
          copy_field-not_halted c d e h (right (matches c forecast d) (is_text_cell c.cell) t)
            (rw (b, t) at q)
      | inr u ↦
          elim (Bool-cases
            (matches c quarterly_target d && is_month c.cell && is_live d && is_open c)) [
              | inl v ↦ going-halted (rw (b, u, v) at q)
              | inr w ↦ going-halted (rw (b, u, w) at q)
            ]
    ]
  ]
    where
      right : (a b : Bool) → (a && b) ≡ true → b ≡ true
      right a b p = ground arith

  edit_rows-nil :
      (c : Context N) (g : Globals N) (r : Edited N) → edit_rows c g [] ≡ some r → r.ended ≡ false
  unfolding edit_rows
  edit_rows-nil c g r e = ap (λ s. s.ended) (sym (some-injective _ _ e))

  pub edit_rows-not_ended :
      (c : Context N) (g : Globals N) (ds : List (Row N)) (r : Edited N)
      → (c.cell == project_name_cell) ≡ false
      → edit_rows c g ds ≡ some r
      → r.ended ≡ false
  edit_rows-not_ended c g [] r h e = edit_rows-nil c g r e
  edit_rows-not_ended c g (d ∷ ds) r h e = elim (edit_rows-cons c g d ds r e) [
    | inl halt ↦ absurd (first_part-not_halted c d halt.row h halt.first)
    | inr t ↦
        ap (λ s. s.ended) t.result
        ∙ edit_rows-not_ended c (note_month c d t.middle g) ds t.rest h t.later
  ]

  auto_save-sends :
      (cell : ℕ) (item : Row N) (cs : List (Change N)) → sends (auto_save cell item cs) ≡ true
  unfolding auto_save
  auto_save-sends cell item cs = ground arith

  finish-sends :
      (item : Row N) (cs : List (Change N)) (s s' : State N) (es : List (Effect N))
      → finish po_number_cell item cs s ≡ some (s', es)
      → sends es ≡ true
  unfolding finish is_month
  finish-sends item cs s s' es e =
      let no_month : (loose_eq (item 37) (bool true) && loose_eq (item 11) (str forecast) && false)
          ≡ false =
        ground arith in
      ap (λ t. sends t.1) (sym (some-injective _ _ (rw no_month at e)))
      ∙ auto_save-sends po_number_cell item cs

  edit_cells-sends :
      (set : Setting) (item : Row N) (key : Value N) (s s' : State N) (es : List (Effect N))
      → edit_cells set po_number_cell item key s ≡ some (s', es)
      → sends es ≡ true
  unfolding edit_cells
  edit_cells-sends set item key s s' es e =
      let c : Context N = record {
        cell = po_number_cell;
        item = item;
        key = key;
        value = item po_number_cell;
        quarter = set.quarter;
        before_cut_off = set.before_cut_off;
      } in
      let (r, er, e1) = >>=-eq-some (edit_rows c s.globals s.rows) _ e in
      let whole = edit_rows-not_ended c s.globals s.rows r refl er in
      finish-sends item r.changes (record s { rows = r.rows; globals = r.globals }) s' es
        (rw whole at e1)

  edit_cell-sends :
      (set : Setting) (cell : ℕ) (item : Row N) (s s' : State N) (es : List (Effect N))
      → (cell == brand_cell) ≡ false
      → edit_cell set cell po_number_cell item s ≡ some (s', es)
      → sends es ≡ true
  unfolding edit_cell
  edit_cell-sends set cell item s s' es no_brand e =
      let (key, ek, e1) = >>=-eq-some (key_of item) _ e in
      edit_cells-sends set item key s s' es (rw no_brand at e1)

  pub ask-eq-some :
      (q : Effect N) (o : Option (State N × List (Effect N))) (s : State N) (es : List (Effect N))
      → ask q o ≡ some (s, es)
      → (es' : List (Effect N)) × (o ≡ some (s, es')) × (es ≡ q ∷ es')
  ask-eq-some q none s es e = cc
  ask-eq-some q (some (s', es')) s es e = (es', ground arith, ground arith)

  confirm_po-sends :
      (set : Setting) (row fixed at : ℕ) (item : Row N) (s s' : State N)
      (go : Option (State N × List (Effect N))) (es : List (Effect N))
      → fixed ≡ po_number_cell
      → ((t : State N) (fs : List (Effect N)) → go ≡ some (t, fs) → sends fs ≡ true)
      → confirm_po set row fixed at item s go ≡ some (s', es)
      → sends es ≡ set.accepted
  unfolding confirm_po
  confirm_po-sends set row fixed at item s s' go es h sent e = elim (Bool-cases set.accepted) [
    | inl yes_said ↦
        let (es', e2, ee) = ask-eq-some _ go s' es (rw (h, yes_said) at e) in
        ap sends ee ∙ sent s' es' e2 ∙ sym yes_said
    | inr no_said ↦
        ap (λ t. sends t.1) (sym (some-injective _ _ (rw (h, no_said) at e))) ∙ sym no_said
  ]

  -- An edit of a PO number that goes through sends a request exactly when the user has confirmed it.
  pub update-confirmed :
      (set : Setting) (row cell at : ℕ) (s s' : State N) (es : List (Effect N))
      → fixed_cell set.hidden cell ≡ po_number_cell
      → update_mem_cache set row cell at s ≡ some (s', es)
      → sends es ≡ set.accepted
  unfolding update_mem_cache
  update-confirmed set row cell at s s' es h e =
      let (item, ei, e1) = >>=-eq-some (get_elem? s.rows at) _ e in
      let fixed = fixed_cell set.hidden cell in
      confirm_po-sends set row fixed at item s s' (edit_cell set cell fixed item s) es h
        (λ t fs sent.
          edit_cell-sends set cell item s t fs (po-is_no_brand set.hidden cell h)
            (ap (λ k. edit_cell set cell k item s) (sym h) ∙ sent))
        e1
