-- ===== src/Formatters/Links.antt =====
-- Links and buttons: `HyperLinkFormatter`, `cancelButtonFormatter`, `ButtonFormatter`,
-- `gMemoriHyperLinkFormatter` and `CheckBoxFormatter`.
use budget_app.Base.{
  Bool, true, false, ◌&&◌, ◌||◌, not, String, Option, none, some, leb, ◌==◌, if◌then◌else◌, text_eq,
  concat, contains, contains_fold, before, trim, text_length, ◌>>=◌,
}
use budget_app.Constants.{forecast, accrual, quarterly_target, quarterly_lts}
use budget_app.Formatters.Amounts.{has_point?}
use budget_app.Js.{Number, Value, undefined, str, Row, to_string, to_string?, loose_eq}

-- A button with this text.
abbrev button_of : String → String → String → String
button_of text id style =
    concat "<input type='button' value='" (concat text (concat "' id='" (concat id style)))

-- The kind of a row with its explanation.
unfoldable pub titled : String → String → String
titled title s = concat "<span title='" (concat title (concat "'>" (concat s "</span>")))

-- `or` in the order in which JavaScript evaluates it.
abbrev or_else : Option Bool → Option Bool → Option Bool
or_else none b = none
or_else (some true) b = some true
or_else (some false) b = b

module _ {N : Type 0} ⦃n : Number N⦄ where
  unfoldable pub button : String → String → Row N → Value N → Value N
  button row cell d v =
      if loose_eq v (str "Save") && loose_eq (d 35) (str "Buttons")
      then str (
          concat (button_of (to_string v) "btnForm" "' value2='")
            (concat row (concat "' value3='" (concat cell "/>"))))
      else undefined

  -- Whether the row is the forecast of a whole project that is not closed and no total.
  unfoldable pub open_forecast : Row N → Option Bool
  unfolding has_point?
  open_forecast d =
      if not (loose_eq (d 26) (str "Closed")) && loose_eq (d 11) (str forecast)
      then (has_point? (d 0) >>= λ part. some (not part && not (loose_eq (d 26) (str "Total"))))
      else some false

  unfoldable pub hyper_link : Row N → Value N → Option (Value N)
  unfolding open_forecast
  hyper_link d (str s) =
      let link =
        concat
          "<div width = '100%' style='background:#C0CCED'><span ><a href='#' style='color:green'>"
          (concat s "</a></span></div>") in
      let save =
        button_of s "submitProjBtn"
          "' style='font-size: 12px; width:80px; height: 20px; background:#2271B0; color:#FFFFFF'/>" in
      let cancel =
        button_of s "cnclProjBtn"
          "' style='font-size: 12px;  width:80px; height: 20px; background:#2271B0; color:#FFFFFF' />" in
      let shown = open_forecast d >>= λ opened. some (
        if opened
        then str
            (concat "<div width = '100%' style='background:#C0CCED'>" (concat s "&nbsp;</div>"))
        else str s) in
      if contains_fold s "smart wbs"
      then some (str link)
      else if text_eq s "Save" && loose_eq (d 35) (str "Buttons")
      then some (str save)
      else if text_eq s "Cancel" && loose_eq (d 35) (str "Buttons")
      then some (str cancel)
      else shown
  hyper_link d v = some v

  unfoldable pub cancel_button : Row N → Value N → Value N
  unfolding titled
  cancel_button d (str s) =
      if text_eq s "Cancel" && loose_eq (d 35) (str "Buttons")
      then str (
          button_of s "cnclProjBtn"
            "' style='font-size: 12px;  width:80px; height: 20px; background:#2271B0; color:#FFFFFF' />")
      else if text_eq s forecast
      then str (titled "Projected Spend" s)
      else if text_eq s quarterly_target || text_eq s "Annual Target"
      then str (titled "Benchmarks for current quarter" s)
      else if text_eq s accrual
      then str (titled "Spend according to milestones of SOW" s)
      else if text_eq s "Forecast LTS" || text_eq s quarterly_lts
      then str (titled "= Quarterly Target - Accrual" s)
      else str s
  cancel_button d v = v

  -- The link of an identifier. The tests of `value.toString().trim` compare a method with a text, and
  -- always hold.
  unfoldable pub gmemori_link : Row N → Value N → Option (Value N)
  unfolding has_point?
  gmemori_link d v = do
    shown ← to_string? v
    let val = if contains shown "." then before b'.' shown else shown
    let url = concat "https://memori-dev.appspot.com/editProject?gMemoriId=" val
    let anchor =
        concat "<span ><a id='gmem' href=" (
          concat url (concat " target='gmemori' style='color:green'>" (concat shown "</a></span>")))
    let short = has_point? (d 0) >>= λ part.
        some (str (if part then anchor else concat "<div width = '100%'>" (concat anchor "</div>")))
    let counted = loose_eq (d 11) (str forecast) && not (loose_eq (d 26) (str "Total"))
    let named = counted && not (loose_eq (d 2) (str ""))
    let blank = counted && loose_eq (d 2) (str "")
    let empty = has_point? (d 0) >>= λ part.
        some (str (if part then "" else "<div width = '100%'>&nbsp;</div>"))
    let unnamed = if blank then empty else some (str "")
    let initiate = to_string? (d 0) >>= λ id.
        if text_length id == 10
        then some (
            str
              "<div width = '100%'><span ><a id='gmem' href='#' target='' style='color:green'>Initiate</a></span></div>")
        else unnamed
    if loose_eq (d 35) (str "NewProjects")
        then some (str "")
        else if leb 1 (text_length val) && leb (text_length val) 6
        then short
        else if named
        then initiate
        else unnamed

  -- `v.toString().trim() != ""`
  unfoldable pub is_inked? : Value N → Option Bool
  is_inked? v = do s ← to_string? v; some (not (text_eq (trim s) ""))

  -- `row` is the number of the row, and `status` that of the clicked project.
  unfoldable pub check_box : String → Value N → Row N → Option String
  unfolding is_inked?
  check_box row status d =
      let entered =
        or_else (is_inked? (d 7))
          (or_else (is_inked? (d 1)) (or_else (is_inked? (d 3)) (is_inked? (d 2)))) in
      let drawn = entered >>= λ shown. some (
        if shown
        then concat "<input type='checkbox' class='checkDeletion' value='true' id = "
            (concat row "chkBox>")
        else "") in
      if not (loose_eq (d 9) (str "preExisting")) || loose_eq status (str "New")
      then drawn
      else some ""
