-- ===== src/Popup/Checks.antt =====
-- The checks of `saveAndClose`: the loop over the rows, `validateUserAndBrand` and
-- `validateUserAndBrandExists`. `none` stands for the `TypeError` that a method call on a missing
-- value throws.
pub mod Passed
use Prim.Native.String
use Prim.Native.String.{[], ◌∷◌}
use budget_app.Base.{
  ℕ, suc, Bool, true, false, not, ◌&&◌, ◌||◌, String, Option, none, some, List, [], ◌∷◌, length,
  ◌==◌, if◌then◌else◌, text_eq, concat, contains, trim, ◌>>=◌,
}
use budget_app.Base.Order.{sort}
use budget_app.Js.{Number, Value, str, Row, put, to_string, to_string?, trim?, loose_eq, is_blank}

-- `errStr` with one more label, if the field is bad.
abbrev pub note : Bool → String → String → String
note false label err = err
note true label err = concat (if text_eq err "" then "" else concat err ", ") label

-- `errStr` after the three fields of a row.
unfoldable pub labels : Bool → Bool → Bool → String
labels no_id no_brand no_total =
    note no_total "Total " (note no_brand "Brand " (note no_id "gMemori Id " ""))

-- `text.substring(1, text.length - 1)`: the first and the last character go, and a text of one
-- character stays.
unfoldable pub inner : String → String
inner [] = []
inner (c ∷ []) = []
inner (c ∷ s) = c ∷ inner s

unfoldable pub strip_ends : String → String
strip_ends [] = []
strip_ends (c ∷ []) = c ∷ []
strip_ends (c ∷ s) = inner s

-- `results`: each key that its successor in the sorted array repeats.
unfoldable pub twins : List String → List String
twins [] = []
twins (k ∷ []) = []
twins (k ∷ l ∷ ks) =
    if not (text_eq (trim k) "") && not (text_eq (trim l) "") && text_eq (trim k) (trim l)
    then k ∷ twins (l ∷ ks)
    else twins (l ∷ ks)

module _ {N : Type 0} ⦃n : Number N⦄ where
  -- The labels of the fields of a row that are blank, or whose amount is zero.
  unfoldable pub row_error : Row N → Option String
  unfolding loose_eq
  row_error d = do
    id ← to_string? (d 5)
    brand ← trim? (d 1)
    total ← to_string? (d 3)
    let no_id = text_eq (trim id) "" || loose_eq (d 5) (str "undefined")
    let no_brand = text_eq brand "" || loose_eq (d 1) (str "undefined")
    let no_total =
        text_eq (trim total) ""
        || loose_eq (d 3) (str "undefined")
        || text_eq total "0"
        || text_eq total "0.0"
    some (labels no_id no_brand no_total)

  -- The result of the loop after a row that passed.
  abbrev pub prepend :
      Row N → Option (ℕ × String × List (Row N)) → Option (ℕ × String × List (Row N))
  prepend d none = none
  prepend d (some (i, err, ds)) = some (suc i, err, d ∷ ds)

  -- The loop over the rows, up to the first that has no project name or has an error: the row's
  -- index, `errStr`, and the rows, where each one reached has got the clicked project's owner.
  unfoldable pub scan : Value N → List (Row N) → Option (ℕ × String × List (Row N))
  scan owner [] = some (0, "", [])
  scan owner (d ∷ ds) =
      let later = scan owner ds in
      let owned = put d 7 owner in
      let checked = row_error owned >>= λ err.
      if text_eq err "" then prepend owned later else some (0, err, owned ∷ ds) in
      if is_blank (d 4) then some (0, "", d ∷ ds) else checked

  -- Rows with a brand and no project name get the first row's name.
  unfoldable pub fill_names : Value N → List (Row N) → List (Row N)
  fill_names name [] = []
  fill_names name (d ∷ ds) =
      (if is_blank (d 4) && not (loose_eq (d 1) (str "")) then put d 4 name else d)
      ∷ fill_names name ds

  -- The printed brands of an owner, "" for a name that is not listed.
  unfoldable pub brands_of : List (String × String) → Value N → String
  unfolding strip_ends inner
  brands_of [] owner = ""
  brands_of ((user, brands) ∷ users) owner =
      if loose_eq (str user) owner then strip_ends brands else brands_of users owner

  -- `validateUserAndBrand`: the first row whose brand does not occur among its owner's brands.
  unfoldable pub unassigned : List (String × String) → List (Row N) → Option (Row N)
  unassigned users [] = none
  unassigned users (d ∷ ds) =
      if contains (brands_of users (d 7)) (to_string (d 1)) then unassigned users ds else some d

  -- The array `arr` of `validateUserAndBrandExists`: a key for each row, up to the first that lacks
  -- an owner or a brand.
  unfoldable pub owner_brands : List (Row N) → Option (List String)
  owner_brands [] = some []
  owner_brands (d ∷ ds) =
      let later = owner_brands ds in
      let keys = do
        owner ← trim? (d 7)
        brand ← trim? (d 1)
        ks ← later
        some (concat owner (concat ":" brand) ∷ ks)
      in if loose_eq (d 7) (str "") || loose_eq (d 1) (str "") then some [] else keys

  -- `validateUserAndBrandExists`: the repeated keys.
  unfoldable pub duplicates : List (Row N) → Option (List String)
  duplicates ds = do keys ← owner_brands ds; some (twins (sort keys))
