-- ===== src/Popup/Close/Restored.antt =====
-- war/scripts/editProjects.js, `closeWithoutSave` and `initDeletionCell`: the fields and the boxes.
use budget_app.Base.{
  ℕ, ◌+◌, ◌≡◌, refl, ap, inl, inr, Bool, true, false, List, [], ◌∷◌, map, arith, ◌==◌,
  if◌then◌else◌, Bool-cases,
}
use budget_app.Js.{Number, str, bool, Row, loose_eq}
use budget_app.Popup.Rows.{Popup, cleared}
use budget_app.Popup.Close.{restore_brand, close_without_save, listed_tags, tick_boxes}
use budget_app.Popup.Deletion.{is_ticked}

module _ {N : Type 0} ⦃n : Number N⦄ where
  -- After an accepted close the brand of a new project is empty, that of a single-brand project is
  -- the one it had, that of a multi-brand project stays, and no other field has changed; the table
  -- is blank and the choice of brands is "Smart WBS" with those of the owner. After a declined one
  -- everything is as before.
  pub close_restores :
      (p : Popup N) (j : ℕ)
      → let d = p.clicked.cells in
        let q = (close_without_save true p).0 in
        (q.clicked.cells j ≡ (
          if j == 6
          then if loose_eq (d 34) (str "New projects")
            then str ""
            else if loose_eq (d 37) (bool false)
            then d 44
            else d 6
          else d j))
        × (q.rows ≡ cleared p.rows)
        × (q.tags ≡ "Smart WBS" ∷ listed_tags p.users (d 1))
        × ((close_without_save false p).0 ≡ p)
  unfolding close_without_save restore_brand
  close_restores p j = (ground arith, refl, refl, refl)

  -- Whether each row is ticked, from row `i` on.
  abbrev pub boxes : (ℕ → Bool) → ℕ → List (Row N) → List Bool
  boxes checked i [] = []
  boxes checked i (d ∷ ds) = checked i ∷ boxes checked (i + 1) ds

  -- After `initDeletionCell` the rows that count as selected are exactly those whose box is ticked,
  -- if `Number("undefined")` is NaN, which equals no number.
  pub tick_boxes-is_ticked :
      (checked : ℕ → Bool) (i : ℕ) (ds : List (Row N))
      → ((x : N) → n.eq x (n.to_number "undefined") ≡ false)
      → map is_ticked (tick_boxes checked i ds) ≡ boxes checked i ds
  unfolding tick_boxes is_ticked loose_eq
  tick_boxes-is_ticked checked i [] nan = refl
  tick_boxes-is_ticked checked i (d ∷ ds) nan = elim (Bool-cases (checked i)) [
    | inl e ↦
        rw e (rw (nan (n.of_nat 1)) (ap (◌∷◌ true) (tick_boxes-is_ticked checked (i + 1) ds nan)))
    | inr e ↦
        rw e (rw (nan (n.of_nat 0)) (ap (◌∷◌ false) (tick_boxes-is_ticked checked (i + 1) ds nan)))
  ]
