-- ===== src/Formatters/Fields.antt =====
-- Texts that can be changed: `editableFieldFormatter`, `poFieldFormatter` and `gMemoriFormatter`.
use budget_app.Base.{
  Bool, true, false, ◌&&◌, not, String, Option, none, some, if◌then◌else◌, text_eq, concat,
  contains, ◌>>=◌,
}
use budget_app.Constants.{forecast, quarterly_target}
use budget_app.Formatters.Amounts.{has_point?}
use budget_app.Js.{Number, Value, undefined, str, Row, to_string, loose_eq}
use budget_app.Removal.{button_markup}

-- A text on the ground of a cell that can be changed, and of one that cannot.
unfoldable pub blue : String → String
blue s = concat "<div width = '100%' style='background:#C0CCED'>" (concat s "</div>")

unfoldable pub white : String → String
white s = concat "<div width = '100%'>" (concat s "</div>")

module _ {N : Type 0} ⦃n : Number N⦄ where
  -- `v.indexOf('.') == -1`; only a text has that method.
  unfoldable pub lacks_point? : Value N → Option Bool
  lacks_point? (str s) = some (not (contains s "."))
  lacks_point? v = none

  -- `typeof v === 'undefined' || v == ''`
  unfoldable pub is_void : Value N → Bool
  is_void undefined = true
  is_void v = loose_eq v (str "")

  -- The forecast of a whole project.
  unfoldable pub own_forecast : Row N → Option Bool
  unfolding has_point?
  own_forecast d =
      if loose_eq (d 11) (str forecast)
      then (has_point? (d 0) >>= λ part. some (not part))
      else some false

  unfoldable pub delete_button : Row N → String
  unfolding button_markup
  delete_button d =
      concat
        "<button class='myButton' style='margin-left:auto;margin-right:auto;display:block;' type='button' id='delPrjBtn' value="
        (concat (button_markup d) " onClick = 'deleteCurrentProject(this)'>Delete</button>")

  -- What follows the test for the button.
  unfoldable pub editable_text : Row N → Value N → Option (Value N)
  unfolding is_void own_forecast blue white
  editable_text d v =
      let closed =
        own_forecast d >>= λ own. some (str (white (if own then to_string v else "&nbsp;"))) in
      let is_new = loose_eq (d 35) (str "NewProjects") in
      let opened =
        if is_new
        then some true
        else own_forecast d >>= λ own. some (own && not (loose_eq (d 26) (str "Total"))) in
      let drawn = opened >>= λ open_here. some (
        if open_here
        then str (blue (if is_void v then "&nbsp;" else concat (to_string v) "&nbsp;"))
        else undefined) in
      if loose_eq (d 26) (str "Closed") then closed else drawn

  unfoldable pub editable_field : String → Row N → Value N → Option (Value N)
  unfolding editable_text lacks_point? delete_button
  editable_field name d v =
      let rest = editable_text d v in
      let button =
        lacks_point? (d 27) >>= λ whole. if whole then some (str (delete_button d)) else rest in
      if text_eq name "Project Name"
        && loose_eq (d 11) (str quarterly_target)
        && not (loose_eq (d 35) (str "NewProjects"))
        && not (loose_eq (d 26) (str "Total"))
      then button
      else rest

  unfoldable pub po_field : Row N → Value N → Option (Value N)
  unfolding own_forecast blue
  po_field d v =
      let is_new = loose_eq (d 35) (str "NewProjects") in
      let planned = not (loose_eq (d 26) (str "Total")) && not (loose_eq (d 26) (str "Active")) in
      let opened = if is_new then some true else own_forecast d >>= λ own. some (own && planned) in
      let drawn = opened >>= λ open_here.
      some (if open_here then str (blue (concat (to_string v) "&nbsp;")) else v) in
      if loose_eq (d 26) (str "Closed") then some v else drawn

  unfoldable pub gmemori_input : Row N → Value N
  gmemori_input d =
      if loose_eq (d 35) (str "NewProjects")
      then str "<INPUT type=text class='editor-text' maxlength='6'/>"
      else undefined
