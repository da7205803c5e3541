-- ===== src/Views.antt =====
-- war/scripts/editProjects.js: the choice of a view, a cost center and a brand, and the windows for
-- uploads and downloads. The values of the page's inputs are arguments.
pub mod Forms
mod Tests
use budget_app.Base.{Bool, true, false, String, List, [], ◌∷◌, ◌++◌, if◌then◌else◌, text_eq, concat}
use budget_app.Js.{Value, str}
use budget_app.Page.{Effect, alert, confirm, show, hide, submit, set_value, reload, post, value}

module _ {N : Type 0} where
  -- The inputs of a form for the view and the cost center.
  abbrev choose : String → String → String → String → List (Effect N)
  choose view_id cost_id view cost =
      set_value view_id (str view) ∷ set_value cost_id (str cost) ∷ []

  -- `getProjectsBrandwise`, with the visibility that `getAvailableTags` sets first.
  unfoldable pub drop_down : String → Effect N
  drop_down view = if text_eq view "My Brands" then show "dropdown" else hide "dropdown"

  unfoldable pub brandwise : String → String → String → List (Effect N)
  unfolding drop_down
  brandwise view cost brand =
      drop_down view
      ∷ hide "myIFrm"
      ∷ set_value "selectedView3" (str view)
      ∷ set_value "getBrand3" (str brand)
      ∷ set_value "getCostCenter3" (str cost)
      ∷ submit "getBrand"
      ∷ []

  -- `selectUserView`
  unfoldable pub select_user_view : String → String → String → List (Effect N)
  select_user_view view cost brand =
      if text_eq view "My Brands"
      then choose "selectedView3" "getCostCenter3" view cost
        ++ (show "dropdown" ∷ set_value "getBrand3" (str brand) ∷ submit "getBrand" ∷ [])
      else if text_eq view "My Projects"
      then choose "selectedView2" "getCostCenter2" view cost
        ++ (hide "dropdown" ∷ submit "getProjects" ∷ [])
      else if text_eq view "My Cost Center"
      then choose "selectedView1" "getCostCenter1" view cost
        ++ (hide "dropdown" ∷ submit "getCostCentre" ∷ [])
      else []

  -- `selectUserView1`, which `getBrandTotals` calls
  unfoldable pub select_user_view1 : String → String → String → List (Effect N)
  select_user_view1 view cost brand =
      if text_eq view "My Brands"
      then choose "selectedView3" "getCostCenter3" view cost
        ++ (show "dropdown" ∷ set_value "getBrand3" (str brand) ∷ submit "getBrand" ∷ [])
      else if text_eq view "My Projects"
      then choose "selectedView2" "getCostCenter2" view cost
        ++ (set_value "getBrand2" (str brand) ∷ hide "dropdown" ∷ submit "getProjects" ∷ [])
      else if text_eq view "My Cost Center"
      then choose "selectedView1" "getCostCenter1" view cost
        ++ (set_value "getBrandCC" (str brand) ∷ hide "dropdown" ∷ submit "getCostCentre" ∷ [])
      else []

  -- `getCostCenterDetails`; the last test is a text, which always holds.
  unfoldable pub cost_center_details : String → String → List (Effect N)
  cost_center_details view cost =
      if text_eq view "My Brands"
      then choose "selectedView3" "getCostCenter3" view cost ++ (submit "getBrand" ∷ [])
      else if text_eq view "My Cost Center"
      then set_value "getCostCenter1" (str cost)
        ∷ set_value "selectedView1" (str view)
        ∷ submit "getCostCentre"
        ∷ []
      else set_value "getCostCenter2" (str cost)
        ∷ set_value "selectedView2" (str view)
        ∷ submit "getProjects"
        ∷ []

  unfoldable pub open_brand_pop_up : String → String → List (Effect N)
  open_brand_pop_up view cost =
      if text_eq view "My Brands"
      then choose "selectedView3" "getCostCenter3" view cost
        ++ (show "selectthebrand" ∷ show "back" ∷ [])
      else []

  unfoldable pub close_popup : List (Effect N)
  close_popup = hide "selectthebrand" ∷ hide "back" ∷ []

  unfoldable pub open_upload_pop_up : List (Effect N)
  open_upload_pop_up = show "uploadWindow" ∷ show "back" ∷ []

  unfoldable pub close_upload_window : List (Effect N)
  close_upload_window = hide "uploadWindow" ∷ hide "back" ∷ set_value "file" (str "") ∷ []

  -- `openDownloadPopUp`; `export` are the effects of `exportExcelData`.
  unfoldable pub open_download_pop_up :
      Bool → String → String → String → List (Effect N) → List (Effect N)
  open_download_pop_up admin view cost brand export =
      let chosen : List (Effect N) =
        if text_eq view "My Brands"
        then show "brandVal" ∷ set_value "selectedBrandValue" (str brand) ∷ []
        else hide "brandVal" ∷ [] in
      let window =
        show "selectthebrand" ∷ show "back" ∷ chosen
        ++ (set_value "selectedCCValue" (str cost)
            ∷ set_value "selectCC" (str "0")
            ∷ show "back"
            ∷ []) in
      if admin then window else export

  -- `cancelProjects` and `toSubmit`
  unfoldable pub cancel_projects : Bool → List (Effect N)
  cancel_projects accepted =
      confirm "Are you sure you want to cancel the projects you created?"
      ∷ (if accepted then reload ∷ [] else [])

  unfoldable pub to_submit : Bool × List (Effect N)
  to_submit = (false, alert "I will not submit" ∷ [])

  unfoldable pub update_user_session : String → List (Effect N)
  update_user_session cost = post "/updateUserSession" (("costCenter", value (str cost)) ∷ []) ∷ []

-- `getAvailableTags`: the first entries of the array are written.
unfoldable pub available_tags : List String → List String → List String
available_tags old brands = over ("Smart WBS" ∷ brands) old
  where
    over : List String → List String → List String
    over [] old = old
    over (t ∷ ts) [] = t ∷ over ts []
    over (t ∷ ts) (o ∷ os) = t ∷ over ts os
