-- ===== src/Session/Changed.antt =====
-- war/scripts/editProjects.js: typing, edits and the pop-up on a page with entered projects.
use mathlib.Core.Option.{some-injective}
use Prim.Native.String.{count}
use budget_app.Base.{
  sym, get_elem?, map, ℕ, zero, suc, ◌&&◌, ◌≡◌, refl, ap, ◌∙◌, inl, inr, Bool, true, false, some,
  List, [], ◌∷◌, arith, ◌==◌, text_eq, Bool-cases,
}
use budget_app.Edit.Kept.{SameRows, Same-refl}
use budget_app.Edit.Update.{edit_failed, restore_ids}
use budget_app.Edit.Cells.{Context, matches}
use budget_app.Constants.{forecast, gmemori_id_cell}
use budget_app.Popup.Close.{close_without_save}
use budget_app.Popup.Close.Restored.{close_restores}
use budget_app.Popup.Rows.{Popup}
use budget_app.Js.{Number, Row, Value}
use budget_app.Page.{Item}
use budget_app.Session.{is_column, type_into, with_cells, replace}
use budget_app.Popup.Save.Kept.{SameItem}
use budget_app.Session.Entered.{StartsEntered}

module _ {N : Type 0} ⦃n : Number N⦄ where
  pub type_into-StartsEntered :
      (count at field : ℕ) (v : Value N) (ds : List (Item N))
      → is_column field ≡ true
      → StartsEntered count ds
      → StartsEntered count (type_into at field v ds)
  type_into-StartsEntered zero at field v ds c h = tt
  type_into-StartsEntered (suc count) at field v [] c h = absurd h
  type_into-StartsEntered (suc count) zero field v (d ∷ ds) c ((new, other), h) =
      let apart : (field == 35) ≡ false = ground (arith, c) in ((rw apart new, other), h)
  type_into-StartsEntered (suc count) (suc at) field v (d ∷ ds) c (e, h) =
      (e, type_into-StartsEntered count at field v ds c h)

  pub with_cells-StartsEntered :
      (count : ℕ) (es : List (Row N)) (ds : List (Item N))
      → SameRows (map (λ d. d.cells) ds) es
      → StartsEntered count ds
      → StartsEntered count (with_cells es ds)
  with_cells-StartsEntered zero es ds same h = tt
  with_cells-StartsEntered (suc count) es [] same h = absurd h
  with_cells-StartsEntered (suc count) [] (d ∷ ds) same h = absurd same
  with_cells-StartsEntered (suc count) (e ∷ es) (d ∷ ds) (one, same) ((new, other), h) =
      ((one.1.1.1.1.0 ∙ new, other), with_cells-StartsEntered count es ds same h)

  pub replace-StartsEntered :
      (count at : ℕ) (d e : Item N) (ds : List (Item N))
      → get_elem? ds at ≡ some d
      → SameItem d e
      → StartsEntered count ds
      → StartsEntered count (replace at e ds)
  replace-StartsEntered zero at d e ds found same h = tt
  replace-StartsEntered (suc count) at d e [] found same h = absurd h
  replace-StartsEntered (suc count) zero d e (x ∷ ds) found (id, field) ((new, other), h) =
      let eq = some-injective _ _ found in
      (
        (
          field ∙ (ap (λ i. i.cells 35) (sym eq) ∙ new),
          ap (λ s. text_eq s "id_0") (id ∙ ap (λ i. i.id) (sym eq)) ∙ other,
        ),
        h,
      )
  replace-StartsEntered (suc count) (suc at) d e (x ∷ ds) found same (one, h) =
      (one, replace-StartsEntered count at d e ds found same h)

  pub close_without_save-SameItem :
      (accepted : Bool) (p : Popup N) → SameItem p.clicked (close_without_save accepted p).0.clicked
  unfolding close_without_save
  close_without_save-SameItem true p = (refl, (close_restores p 35).0)
  close_without_save-SameItem false p = (refl, refl)

  pub restore_ids-SameRows : (c : Context N) (ds : List (Row N)) → SameRows ds (edit_failed c ds).0
  unfolding edit_failed restore_ids
  restore_ids-SameRows c [] = tt
  restore_ids-SameRows c (d ∷ ds) =
      elim (Bool-cases (matches c forecast d && (c.cell == gmemori_id_cell))) [
        | inl restored ↦ rw restored (Same-refl d, restore_ids-SameRows c ds)
        | inr away ↦ rw away (Same-refl d, restore_ids-SameRows c ds)
      ]
