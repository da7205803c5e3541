-- ===== src/Search.antt =====
-- war/scripts/editProjects.js, `searchProject`: the filter of the grid's rows, which also fills `map`
-- for the totals, and war/editProjects.jsp, the handler of the search field. `none` stands for the
-- `TypeError` of a text's method on another value.
pub mod Found
pub mod Totalled
mod Tests
use budget_app.Base.{
  ℕ, Bool, true, false, not, ◌&&◌, String, Option, none, some, List, [], ◌∷◌, if◌then◌else◌, ltb,
  text_eq, text_length, concat, comma_join, contains_fold, eq_fold, ◌>>=◌, both, either,
}
use budget_app.Base.Text.Replace.{replace_all}
use budget_app.Js.{Number, Value, undefined, str, num, bool, Row, to_string, to_string?, loose_eq}
use budget_app.Page.{Item}
use budget_app.Totals.{Entries}

-- `searchString`, `radioString`, and `idBrandMap`, the brand of a project by its identifier.
pub record Query (N : Type 0) : Type 0 where
  pub search : String
  pub radio : String
  pub brands : String → Value N

-- The text of the search field, as the handler of its keys leaves it in `searchString`.
unfoldable pub search_text : Bool → String → String
unfolding replace_all
search_text is_escape s =
    if is_escape then "" else replace_all ">" "&gt;" (replace_all "<" "&lt;" s)

module _ {N : Type 0} where
  -- `map[key] = item`
  unfoldable pub set_entry : String → Row N → Entries N → Entries N
  set_entry key d [] = (key, d) ∷ []
  set_entry key d ((k, e) ∷ es) = if text_eq k key then (k, d) ∷ es else (k, e) ∷ set_entry key d es

  -- A missing brand is joined as an empty text.
  unfoldable pub joined : Value N → String
  joined (str s) = s
  joined _ = ""

module _ {N : Type 0} ⦃n : Number N⦄ where
  -- `v.toLowerCase().indexOf(searchString.toLowerCase()) == -1`
  unfoldable pub lacks : String → Value N → Option Bool
  lacks search (str s) = some (not (contains_fold s search))
  lacks search v = none

  -- The same where something is searched for.
  unfoldable pub searched_lacks : String → Value N → Option Bool
  unfolding lacks
  searched_lacks search v = if text_eq search "" then some false else lacks search v

  -- `item[27].toString().length > 9`
  unfoldable pub is_long : Value N → Option Bool
  is_long v = to_string? v >>= λ s. some (ltb 9 (text_length s))

  unfoldable pub map_brands : (String → Value N) → List String → List String
  unfolding joined
  map_brands brands [] = []
  map_brands brands (id ∷ ids) = joined (brands id) ∷ map_brands brands ids

  -- `arr`, joined: the brands of the sub-projects.
  unfoldable pub sub_brands : (String → Value N) → Item N → String
  unfolding map_brands comma_join
  sub_brands brands item =
      if loose_eq (item.cells 37) (bool true) && not (loose_eq (item.cells 35) (str "NewProjects"))
      then comma_join (map_brands brands item.children)
      else ""

  unfoldable pub brand_lacks : Query N → Item N → Option Bool
  unfolding sub_brands lacks
  brand_lacks q item =
      let multi = not (contains_fold (sub_brands q.brands item) q.search) in
      let single = lacks q.search (item.cells 28) in
      if text_eq q.search ""
      then some false
      else if loose_eq (item.cells 37) (bool true)
      then some multi
      else single

  -- `radioString != "All" && v != "undefined" && v.toLowerCase() != radioString.toLowerCase()`
  unfoldable pub is_other_kind : String → Value N → Option Bool
  is_other_kind radio v =
      let differs : Option Bool = elim v [
        | undefined ↦ none
        | str s ↦ some (not (eq_fold s radio))
        | num x ↦ none
        | bool b ↦ none
      ] in
      if text_eq radio "All"
      then some false
      else if loose_eq v (str "undefined")
      then some false
      else differs

  -- Whether no searched field has the text.
  unfoldable pub is_missed : Query N → Item N → Option Bool
  unfolding is_long searched_lacks brand_lacks
  is_missed q item =
      both (either (is_long (item.cells 27)) (searched_lacks q.search (item.cells 27))) (
        both (brand_lacks q item) (
          both (searched_lacks q.search (item.cells 29)) (
            both (searched_lacks q.search (item.cells 32)) (
              both (searched_lacks q.search (item.cells 30))
                (some (not (loose_eq (item.cells 26) (str "Total"))))))))

  unfoldable pub is_rejected : Query N → Item N → Option Bool
  unfolding is_missed is_other_kind
  is_rejected q item = either (is_missed q item) (is_other_kind q.radio (item.cells 40))

  -- `item[27] + ":" + item[11]`
  unfoldable pub map_key : Row N → String
  map_key d = concat (to_string (d 27)) (concat ":" (to_string (d 11)))

  -- Whether a parent, which may be collapsed, takes the row out.
  unfoldable pub is_hidden_by : Query N → Row N → Bool → Row N → Option Bool
  unfolding is_long searched_lacks lacks
  is_hidden_by q d collapsed parent =
      let missed = both (either (is_long (d 27)) (searched_lacks q.search (parent 27))) (
        both (searched_lacks q.search (parent 28)) (
          both (searched_lacks q.search (parent 29)) (
            both (searched_lacks q.search (parent 32)) (
              both (searched_lacks q.search (parent 30))
                (some (not (loose_eq (parent 26) (str "Total")))))))) in
      let other : Option Bool =
        if text_eq q.radio "All"
        then some false
        else if loose_eq (d 11) (str "undefined")
        then some false
        else lacks q.radio (d 11) in
      either (some collapsed) (either missed other)

  -- The loop over the parents, from the row outwards.
  unfoldable pub under_parents : Query N → Row N → Bool → List (Bool × Row N) → Option Bool
  unfolding is_hidden_by
  under_parents q d status [] = some status
  under_parents q d status ((collapsed, parent) ∷ parents) =
      let further = under_parents q d status parents in
      is_hidden_by q d collapsed parent >>= λ hidden. if hidden then some false else further

  -- A row, with its parents: whether it is shown, and the map.
  unfoldable pub search_project :
      Query N → List (Bool × Row N) → Item N → Entries N → Option (Bool × Entries N)
  unfolding is_rejected set_entry map_key under_parents
  search_project q parents item map = is_rejected q item >>= λ rejected.
      let kept = do
        status ← under_parents q item.cells (loose_eq (item.cells 33) (str "New")) parents
        some (status, set_entry (map_key item.cells) item.cells map)
      in if rejected then some (false, map) else kept

  -- `map = {}` and `dataView.refresh()`, which applies the filter to the rows, none of which
  -- has a parent, in their order: the rows
  -- that are shown, and the map.
  unfoldable pub refresh : Query N → List (Item N) → Entries N → Option (List (Item N) × Entries N)
  unfolding search_project
  refresh q [] map = some ([], map)
  refresh q (item ∷ items) map = do
    (is_shown, map') ← search_project q [] item map
    (shown, map'') ← refresh q items map'
    some (if is_shown then item ∷ shown else shown, map'')
