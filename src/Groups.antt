-- ===== src/Groups.antt =====
-- war/scripts/editProjects.js, `groupByStatus`: the title of a group of rows, with the number of its
-- projects. The rows of the group are an argument; the arrays that collect the identifiers are empty
-- when a title is drawn.
pub mod Unique
mod Tests
use budget_app.Base.{
  ℕ, Bool, true, false, not, String, Option, none, some, List, [], ◌∷◌, ◌++◌, length, if◌then◌else◌,
  text_eq, concat, contains, before, trim, ◌>>=◌,
}
use budget_app.Js.{Number, Value, undefined, str, num, bool, Row, to_string?, loose_eq}

abbrev item_count : String → String
item_count count = concat count " items)</span>"

module _ {N : Type 0} ⦃n : Number N⦄ where
  -- `v === w`
  unfoldable pub strict_eq : Value N → Value N → Bool
  strict_eq undefined undefined = true
  strict_eq (str s) (str t) = text_eq s t
  strict_eq (num x) (num y) = n.eq x y
  strict_eq (bool true) (bool c) = c
  strict_eq (bool false) (bool c) = not c
  strict_eq _ _ = false

  -- `$.inArray(v, vs) !== -1`
  unfoldable pub in_array : Value N → List (Value N) → Bool
  unfolding strict_eq
  in_array v [] = false
  in_array v (w ∷ ws) = let later = in_array v ws in if strict_eq w v then true else later

  -- `uniqueNames`
  unfoldable pub unique : List (Value N) → List (Value N) → List (Value N)
  unfolding in_array
  unique names [] = names
  unique names (v ∷ vs) =
      let same = unique names vs in
      let more = unique (names ++ (v ∷ [])) vs in if in_array v names then same else more

  -- The part of an identifier before the point; only a text has the method `split`.
  unfoldable pub whole_id : Value N → Option (Value N)
  whole_id (str s) = some (str (if contains s "." then before b'.' s else s))
  whole_id v = do s ← to_string? v; if contains s "." then none else some v

  -- The identifier of a row's project, if it has one.
  unfoldable pub project_id : Row N → Option (Option (Value N))
  unfolding whole_id
  project_id d =
      let read = do
        s ← to_string? (d 0)
        id ← whole_id (d 0)
        some (if text_eq (trim s) "" then none else some id)
      in if loose_eq (d 0) (str "undefined") then some none else read

  abbrev pub keep_if : Bool → Option (Value N) → List (Value N) → List (Value N)
  keep_if true (some id) ids = id ∷ ids
  keep_if _ _ ids = ids

  -- `newArr`, `ActiveArr` or `ClosedArr`
  unfoldable pub ids_of : String → List (Row N) → Option (List (Value N))
  unfolding project_id
  ids_of status [] = some []
  ids_of status (d ∷ ds) = do
    id ← project_id d
    ids ← ids_of status ds
    some (keep_if (loose_eq (d 26) (str status)) id ids)

  unfoldable pub count_projects : String → List (Row N) → Option ℕ
  unfolding ids_of unique
  count_projects status ds = do ids ← ids_of status ds; some (length (unique [] ids))

  -- The title; `study` hides the button.
  unfoldable pub group_title : Bool → String → List (Row N) → Option (Value N)
  unfolding count_projects
  group_title study status ds = do
    planned ← count_projects "New" ds
    active ← count_projects "Active" ds
    closed ← count_projects "Closed" ds
    let create =
        if study
        then ""
        else "&nbsp;&nbsp;<input type='button' style='font-size: 12px; height: 25px; width: 120px; background:#2271B0; color:#FFFFFF' value='Create Projects' id='crtNewProjBtn'/>"
    some (
        if text_eq status "Total"
        then str "<span style='color:green'>Overall</span>"
        else if text_eq status "New"
        then str (
            concat "Planned<span style='color:green'>("
              (concat (item_count (n.show (n.of_nat planned))) create))
        else if text_eq status "Active"
        then str
            (concat "Active  <span style='color:green'>(" (item_count (n.show (n.of_nat active))))
        else if text_eq status "Closed"
        then str
            (concat "Closed<span style='color:green'>(" (item_count (n.show (n.of_nat closed))))
        else undefined)
