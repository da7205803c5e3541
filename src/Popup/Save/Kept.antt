-- ===== src/Popup/Save/Kept.antt =====
-- war/scripts/editProjects.js, `saveAndClose`: which project was clicked.
use mathlib.Core.Option.{some-injective}
use budget_app.Base.{
  ℕ, ◌≤◌, ◌≡◌, refl, subst, ◌∙◌, inl, inr, Bool, String, some, List, ◌∷◌, ◌++◌, arith, List-cases,
  Option-cases, >>=-eq-some,
}
use budget_app.Js.{Number, Value, Row}
use budget_app.Page.{Item, Effect}
use budget_app.Popup.Checks.{scan, fill_names, unassigned, duplicates}
use budget_app.Popup.Rows.{Popup}
use budget_app.Popup.Save.{
  refusal, first_name, is_listed, brand_alerts, twin_alerts, divide, accept, save_and_close,
}
use budget_app.Popup.Save.Divided.{divide-cells}

module _ {N : Type 0} ⦃n : Number N⦄ where
  -- The same identifier, and the same field 35.
  abbrev pub SameItem : Item N → Item N → Type 0
  SameItem d e = (e.id ≡ d.id) × (e.cells 35 ≡ d.cells 35)

  divide-SameItem :
      (month : ℕ) (listed : Bool) (ds : List (Row N)) (item : Item N)
      → month ≤ 12
      → SameItem item (divide month listed ds item)
  unfolding divide
  divide-SameItem month listed ds item h =
      (refl, divide-cells month listed ds item 35 h ∙ (ground arith))

  accept-SameItem :
      (month : ℕ) (disable_grid : Bool) (cost : Value N) (grid_rows : List (Item N)) (p : Popup N)
      (repeated : List String)
      → month ≤ 12
      → SameItem p.clicked (accept month disable_grid cost grid_rows p repeated).0.clicked
  unfolding accept
  accept-SameItem month disable_grid cost grid_rows p repeated h =
      elim (List-cases (brand_alerts (unassigned p.users p.rows) ++ twin_alerts repeated)) [
        | inl passed ↦
            rw (accept, passed)
              (divide-SameItem month (is_listed p.clicked.id grid_rows) p.rows p.clicked h)
        | inr (a, more, refused) ↦ rw (accept, refused) (refl, refl)
      ]

  -- A save of the pop-up, whatever its outcome, leaves the clicked project's identifier and the field
  -- that tells a new project from others.
  pub save_and_close-SameItem :
      (month : ℕ) (disable_grid : Bool) (cost : Value N) (grid_rows : List (Item N))
      (p p' : Popup N) (effects : List (Effect N))
      → month ≤ 12
      → save_and_close month disable_grid cost grid_rows p ≡ some (p', effects)
      → SameItem p.clicked p'.clicked
  unfolding save_and_close
  save_and_close-SameItem month disable_grid cost grid_rows p p' effects h e =
      let ((i, err, ds), es, e1) = >>=-eq-some (scan (p.clicked.cells 1) p.rows) _ e in
      let named = fill_names (first_name ds) ds in
      elim (Option-cases (refusal i err)) [
        | inl passed ↦
            let (repeated, ed, e2) = >>=-eq-some (duplicates named) _ (rw passed at e1) in
            let q : Popup N = record p { rows = named; tags = "Smart WBS" ∷ p.tags } in
            subst (λ r. SameItem p.clicked r.0.clicked) (some-injective _ _ e2)
              (accept-SameItem month disable_grid cost grid_rows q repeated h)
        | inr (text, refused) ↦
            subst (λ r. SameItem p.clicked r.0.clicked) (some-injective _ _ (rw refused at e1))
              (refl, refl)
      ]
