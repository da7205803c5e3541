-- ===== src/Session/Steps.antt =====
-- war/scripts/editProjects.js: the first rows of a page, from one handler to the next.
use budget_app.Base.{map, subst, inl, inr, arith, Bool-cases}
use budget_app.Create.{Grid, dummy_active, dummy_closed}
use budget_app.Edit.Kept.{SameRows}
use budget_app.Edit.Update.{edit_failed}
use budget_app.Popup.Close.{close_without_save}
use budget_app.Edit.Kept.Whole.{update_mem_cache-SameRows}
use budget_app.Js.{Number}
use budget_app.Session.{
  Step, created, created_int, listed_active, listed_closed, typed, edited, saved, closed, failed,
  submitted, Reach, here, next,
}
use budget_app.Popup.Save.Kept.{save_and_close-SameItem}
use budget_app.Session.Entered.{
  StartsEntered, StartsEntered-append, create_new-StartsEntered, create_int-StartsEntered,
}
use budget_app.Session.Checked.{submit-StartsEntered}
use budget_app.Session.Changed.{
  type_into-StartsEntered, with_cells-StartsEntered, replace-StartsEntered,
  close_without_save-SameItem, restore_ids-SameRows,
}

module _ {N : Type 0} ⦃n : Number N⦄ where
  Step-StartsEntered :
      {g g' : Grid N}
      → Step g g'
      → StartsEntered g.addsave g.rows
      → StartsEntered g'.addsave g'.rows
  unfolding dummy_active dummy_closed
  Step-StartsEntered (created user g) h = create_new-StartsEntered user g h
  Step-StartsEntered (created_int user g g' effects e) h =
      create_int-StartsEntered user g g' effects e h
  Step-StartsEntered (listed_active g) h = elim (Bool-cases g.active_exist) [
    | inl there ↦ rw there h
    | inr missing ↦ rw missing (StartsEntered-append g.addsave g.rows _ h)
  ]
  Step-StartsEntered (listed_closed g) h = elim (Bool-cases g.closed_exist) [
    | inl there ↦ rw there h
    | inr missing ↦ rw missing (StartsEntered-append g.addsave g.rows _ h)
  ]
  Step-StartsEntered (typed g at field v c) h =
      type_into-StartsEntered g.addsave at field v g.rows c h
  Step-StartsEntered (edited set row cell at g s s' effects same e) h =
      let kept = update_mem_cache-SameRows set row cell at s s' effects e in
      with_cells-StartsEntered g.addsave s'.rows g.rows
        (subst (λ rs. SameRows rs s'.rows) same kept) h
  Step-StartsEntered (saved month disable_grid cost g at p p' effects m found e) h =
      replace-StartsEntered g.addsave at p.clicked p'.clicked g.rows found
        (save_and_close-SameItem month disable_grid cost g.rows p p' effects (omega (arith, m)) e) h
  Step-StartsEntered (closed accepted g at p found) h =
      replace-StartsEntered g.addsave at p.clicked (close_without_save accepted p).0.clicked g.rows
        found (close_without_save-SameItem accepted p) h
  Step-StartsEntered (failed c g) h =
      let cells = map (λ d. d.cells) g.rows in
      with_cells-StartsEntered g.addsave (edit_failed c cells).0 g.rows
        (restore_ids-SameRows c cells) h
  Step-StartsEntered (submitted cost g rows effects e) h =
      submit-StartsEntered cost g rows effects e h

  pub Reach-StartsEntered :
      {g g' : Grid N}
      → Reach g g'
      → StartsEntered g.addsave g.rows
      → StartsEntered g'.addsave g'.rows
  Reach-StartsEntered here h = h
  Reach-StartsEntered (next r s) h = Step-StartsEntered s (Reach-StartsEntered r h)
