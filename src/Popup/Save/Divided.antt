-- ===== src/Popup/Save/Divided.antt =====
-- war/scripts/editProjects.js, `saveAndClose`: the fields of the clicked project.
use budget_app.Base.{
  ℕ, zero, suc, ◌+◌, ◌-◌, ◌≤◌, ◌≡◌, Bool, true, false, ◌&&◌, List, arith, ltb, leb, ◌==◌,
  if◌then◌else◌, refl, inl, inr, Bool-cases, [], ◌∷◌,
}
use budget_app.Js.{Number, Value, str, num, bool, Row, put, parse, loose_eq}
use budget_app.Page.{Item}
use budget_app.Popup.Save.{sum_amounts, zero_cells, divide}

module _ {N : Type 0} ⦃n : Number N⦄ where
  zero_cells_lem :
      (count from : ℕ) (d : Row N) (j : ℕ)
      → zero_cells count from d j
        ≡ (if leb from j && ltb j (from + count) then num (n.of_nat 0) else d j)
  unfolding zero_cells
  zero_cells_lem zero from d j = ground arith
  zero_cells_lem (suc count) from d j =
      ground (arith, zero_cells_lem count (from + 1) (put d from (num (n.of_nat 0))) j)

  -- The numbered fields after a division.
  pub divide-cells :
      (month : ℕ) (listed : Bool) (ds : List (Row N)) (item : Item N) (j : ℕ)
      → month ≤ 12
      → (divide month listed ds item).cells j ≡ (
          if leb (12 + month) j && ltb j 24
          then num (n.of_nat 0)
          else if j == 51
          then num (if listed then sum_amounts (n.of_nat 0) ds else n.of_nat 0)
          else if listed && (j == 37)
          then bool true
          else item.cells j)
  unfolding divide
  divide-cells month true ds item j h =
      let start = put (put item.cells 37 (bool true)) 51 (num (sum_amounts (n.of_nat 0) ds)) in
      ground (arith, zero_cells_lem (12 - month) (12 + month) start j)
  divide-cells month false ds item j h =
      let start = put item.cells 51 (num (n.of_nat 0)) in
      ground (arith, zero_cells_lem (12 - month) (12 + month) start j)

  -- The amounts of the sub-projects up to the first one without a name.
  abbrev pub amounts : List (Row N) → List (Value N)
  amounts [] = []
  amounts (d ∷ ds) = let rest = amounts ds in if loose_eq (d 4) (str "") then [] else d 3 ∷ rest

  -- The sum of some amounts, from left to right.
  abbrev pub sum : N → List (Value N) → N
  sum acc [] = acc
  sum acc (v ∷ vs) = sum (n.add (parse (num acc)) (parse v)) vs

  sum_amounts-sum : (acc : N) (ds : List (Row N)) → sum_amounts acc ds ≡ sum acc (amounts ds)
  unfolding sum_amounts
  sum_amounts-sum acc [] = refl
  sum_amounts-sum acc (d ∷ ds) = elim (Bool-cases (loose_eq (d 4) (str ""))) [
    | inl unnamed ↦ rw unnamed refl
    | inr named ↦ rw named (sum_amounts-sum (n.add (parse (num acc)) (parse (d 3))) ds)
  ]

  -- Dividing a project empties its months from the current one on and stores the total of the
  -- sub-projects in field 51, which is zero for a project that the grid does not list; a project of
  -- the grid is marked in field 37 and gets the sub-projects, in field 36. No other field changes.
  pub divide-fields :
      (month : ℕ) (listed : Bool) (ds : List (Row N)) (item : Item N)
      → month ≤ 12
      → let after = divide month listed ds item in
        ((j : ℕ)
          → after.cells j ≡ (
              if leb (12 + month) j && ltb j 24
              then num (n.of_nat 0)
              else if j == 51
              then num (if listed then sum (n.of_nat 0) (amounts ds) else n.of_nat 0)
              else if listed && (j == 37)
              then bool true
              else item.cells j))
        × (after.subs ≡ (if listed then ds else item.subs))
        × (after.id ≡ item.id)
        × (after.children ≡ item.children)
  unfolding divide
  divide-fields month listed ds item h = (
    λ j. rw (← sum_amounts-sum (n.of_nat 0) ds) (divide-cells month listed ds item j h),
    refl,
    refl,
    refl,
  )
