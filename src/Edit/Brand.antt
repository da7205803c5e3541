-- ===== src/Edit/Brand.antt =====
-- An edit of the brand.
use budget_app.Base.{
  Bool, false, ◌&&◌, String, Option, none, some, List, [], ◌∷◌, if◌then◌else◌, text_eq, concat,
  contains_fold, ◌>>=◌,
}
use budget_app.Constants.{brand_field, brand_search_field, brand_duplicate_field}
use budget_app.Edit.Cells.{is_live}
use budget_app.Edit.Rows.{Change}
use budget_app.Js.{Number, Value, str, num, bool, Row, put, to_string, to_string?, loose_eq}
use budget_app.Popup.Rows.{Popup}

-- `availableTags` without its first "Smart WBS"
unfoldable pub without_smart : List String → List String
without_smart [] = []
without_smart (t ∷ ts) =
    let rest = t ∷ without_smart ts in if text_eq t "Smart WBS" then ts else rest

-- What an edit of the brand leads to: an alert and no more, the pop-up, or the storing of changes.
pub data BrandEdit (N : Type 0) : Type 0 where
  barred : BrandEdit N
  opens : Popup N → BrandEdit N
  stores : Popup N → List (Change N) → BrandEdit N

module _ {N : Type 0} ⦃n : Number N⦄ where
  -- The pop-up's first row is the clicked project with all of its amount.
  unfoldable pub open_popup : List (String × String) → Popup N → Option (Popup N)
  unfolding without_smart
  open_popup users p =
      let item = p.clicked.cells in
      elim p.rows [
        | [] ↦ none
        | d ∷ ds ↦
            let id = str (concat (to_string (item 0)) ".1") in
            let brand = put (put (put d 1 (item 44)) 3 (item 24)) 2 (num (n.of_nat 100)) in
            let first = put (put (put brand 4 (item 2)) 5 id) 7 (item 1) in
            some (record {
              rows = first ∷ ds;
              clicked = p.clicked;
              tags = without_smart p.tags;
              users = users;
            })
      ]

  -- `tab` is whether the last key pressed was the tabulator.
  unfoldable pub brand_edit :
      Bool → List (String × String) → Value N → Row N → Popup N → Option (BrandEdit N)
  unfolding open_popup
  brand_edit tab users key item p = do
    brand ← to_string? (item brand_field)
    let dialog = do q ← open_popup users p; some (opens q)
    let smart =
        if tab
        then if loose_eq (item 37) (bool false)
          then dialog
          else some (stores (record p { users = users }) [])
        else some barred
    if contains_fold brand "smart wbs"
        then smart
        else some (stores p ((key, item brand_field) ∷ []))

  -- The copies of the brand in the live rows of the project.
  unfoldable pub copy_brand : Value N → Value N → List (Row N) → List (Row N)
  copy_brand key brand [] = []
  copy_brand key brand (d ∷ ds) =
      (if loose_eq key (d 34) && is_live d
        then put (put d brand_search_field brand) brand_duplicate_field brand
        else d)
      ∷ copy_brand key brand ds
