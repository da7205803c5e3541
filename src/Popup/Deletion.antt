-- ===== src/Popup/Deletion.antt =====
-- `deleteSelectedProjects`. Whether the user may delete, and the answers to the confirmations in the
-- order in which they are asked, are arguments.
pub mod Refilled
use budget_app.Base.{
  ℕ, zero, suc, ◌+◌, ◌-◌, Bool, true, false, ◌&&◌, not, String, Option, none, some, List, [], ◌∷◌,
  ◌++◌, length, replicate, ltb, ◌==◌, if◌then◌else◌, text_eq, concat, trim, ◌>>=◌,
}
use budget_app.Js.{
  Number, Value, undefined, str, num, bool, Row, put, to_string, to_string?, as_number, loose_eq,
  is_blank, parse,
}
use budget_app.Page.{Item, Effect, alert, confirm, invalidate}
use budget_app.Popup.Rows.{Popup}

-- What the loop over the rows leaves: the rows, whether the user declined, and how many times the
-- user was asked.
pub record Removal (N : Type 0) : Type 0 where
  pub kept : List (Row N)
  pub declined : Bool
  pub asked : ℕ

module _ {N : Type 0} where
  -- A row that fills the table up.
  unfoldable pub filler_row : Row N
  filler_row j = if ltb j 8 then str "" else if j == 8 then bool false else undefined

  abbrev keep_row : Row N → Removal N → Removal N
  keep_row d r = record r { kept = d ∷ r.kept }

module _ {N : Type 0} ⦃n : Number N⦄ where
  unfoldable pub is_ticked : Row N → Bool
  unfolding loose_eq
  is_ticked d = not (loose_eq (d 8) (str "undefined")) && loose_eq (d 8) (bool true)

  -- The loop, after `k` questions.
  unfoldable pub remove_ticked : (ℕ → Bool) → ℕ → List (Row N) → Removal N
  remove_ticked answer k [] = record { kept = []; declined = false; asked = k }
  remove_ticked answer k (d ∷ ds) =
      let later = remove_ticked answer (k + 1) ds in
      let passed = keep_row d (remove_ticked answer k ds) in
      let stopped : Removal N = record { kept = d ∷ ds; declined = true; asked = k + 1 } in
      if is_ticked d then (if answer k then later else stopped) else passed

  -- Rows with a project name get a new id, if the project is a new one.
  unfoldable pub renumber : Item N → ℕ → List (Row N) → Option (List (Row N))
  renumber item c [] = some []
  renumber item c (d ∷ ds) = do
    name ← to_string? (d 4)
    rest ← renumber item (c + 1) ds
    let id = concat (to_string (item.cells 0)) (concat "." (n.show (n.of_nat (c + 1))))
    some (
        (if not (text_eq (trim name) "") && loose_eq (item.cells 34) (str "New projects")
          then put d 5 (str id)
          else d)
        ∷ rest)

  -- The sum of the amounts, up to the first that is blank.
  unfoldable pub sum_leading : N → List (Row N) → N
  sum_leading acc [] = acc
  sum_leading acc (d ∷ ds) =
      let rest = sum_leading (n.add acc (parse (d 3))) ds in if is_blank (d 3) then acc else rest

  -- The allocations, up to the first blank amount.
  unfoldable pub allocate : N → List (Row N) → List (Row N)
  allocate sum [] = []
  allocate sum (d ∷ ds) =
      let share = n.to_fixed (n.mul (n.div (as_number (d 3)) sum) (n.of_nat 100)) in
      let rest = put d 2 (str share) ∷ allocate sum ds in if is_blank (d 3) then d ∷ ds else rest

  -- The first row of a table with no amounts is the project itself.
  unfoldable pub seed_first : Item N → List (Row N) → Option (List (Row N))
  seed_first item [] = none
  seed_first item (d ∷ ds) =
      let id = str (concat (to_string (item.cells 0)) ".1") in
      let seeded = put (put (put d 4 (item.cells 2)) 5 id) 7 (item.cells 1) in
      some (if loose_eq (d 3) (str "") then seeded ∷ ds else d ∷ ds)

  -- What follows the loop: the table is filled up to its old length, renumbered and allocated.
  unfoldable pub refill : Item N → ℕ → List (Row N) → Option (List (Row N))
  unfolding filler_row
  refill item old kept = do
    ds ← renumber item 0 (kept ++ replicate (old - length kept) filler_row)
    seed_first item (allocate (sum_leading (n.of_nat 0) ds) ds)

  abbrev questions : ℕ → List (Effect N)
  questions k = replicate k (confirm "Selected project(s) will be deleted. Want to continue?")

  unfoldable pub delete_selected : Bool → (ℕ → Bool) → Popup N → Option (Popup N × List (Effect N))
  delete_selected allowed answer p =
      let r = remove_ticked answer 0 p.rows in
      let told = if r.asked == 0 then alert "Please select project(s) to delete." ∷ [] else [] in
      let finish : List (Row N) → List (Effect N) → Option (Popup N × List (Effect N)) =
        λ kept effects. (do
          ds ← refill p.clicked (length p.rows) kept
          some (record p { rows = ds }, effects ++ (invalidate ∷ []))) in
      let refused = finish p.rows (alert "You are not Authorised to delete this Project" ∷ []) in
      let done = finish r.kept (questions r.asked ++ told) in
      if not allowed
      then refused
      else if r.declined
      then some (record p { rows = r.kept }, questions r.asked)
      else done
