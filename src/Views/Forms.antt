-- ===== src/Views/Forms.antt =====
-- Which form each choice submits, and with which inputs. The inputs of the forms are those of
-- war/editProjects.jsp, lines 244 to 266.
use budget_app.Base.{
  ◌≡◌, refl, Bool, ◌||◌, String, List, [], ◌∷◌, inl, inr, Bool-cases, subst, true, text_eq_iff,
  if◌then◌else◌, text_eq,
}
use budget_app.Js.{Value, str}
use budget_app.Page.{Effect, submit, set_value}
use budget_app.Views.{select_user_view, select_user_view1, cost_center_details}

-- The inputs of a form for the view and for the cost center.
abbrev pub inputs : String → String × String
inputs form =
    if text_eq form "getCostCentre"
    then ("selectedView1", "getCostCenter1")
    else if text_eq form "getProjects"
    then ("selectedView2", "getCostCenter2")
    else ("selectedView3", "getCostCenter3")

-- What the page's inputs hold, by their identifiers.
abbrev pub Inputs : Type 0 → Type 0
Inputs N = String → Value N

-- A submitted form with its view and its cost center.
abbrev pub Submission : Type 0 → Type 0
Submission N = String × Value N × Value N

module _ {N : Type 0} where
  abbrev pub write : String → Value N → Inputs N → Inputs N
  write id v held j = if text_eq id j then v else held j

  -- The submitted forms, each with its view and its cost center at that time.
  abbrev pub submitted : Inputs N → List (Effect N) → List (Submission N)
  submitted held [] = []
  submitted held (set_value id v ∷ es) = submitted (write id v held) es
  submitted held (submit form ∷ es) =
      (form, held (inputs form).0, held (inputs form).1) ∷ submitted held es
  submitted held (_ ∷ es) = submitted held es

-- Each view has a form of its own.
abbrev pub view_form : String → String
view_form view =
    if text_eq view "My Brands"
    then "getBrand"
    else if text_eq view "My Cost Center"
    then "getCostCentre"
    else "getProjects"

abbrev pub is_view : String → Bool
is_view view =
    text_eq view "My Brands" || (text_eq view "My Projects" || text_eq view "My Cost Center")

-- Whatever the inputs of the page hold, both handlers for the choice of a view submit the form of that
-- view, with the view and the cost center, if it is one of the three, and none otherwise; but a
-- change of the cost center submits the form of the own projects for any view but the other two.
pub submitted-view_form :
    (N : Type 0) (held : Inputs N) (view cost brand : String)
    → let chosen : List (Submission N) = (view_form view, str view, str cost) ∷ [] in
      let expected = if is_view view then chosen else [] in
      (submitted held (select_user_view view cost brand) ≡ expected)
      × (submitted held (select_user_view1 view cost brand) ≡ expected)
      × (submitted held (cost_center_details view cost) ≡ chosen)
unfolding select_user_view select_user_view1 cost_center_details
submitted-view_form N held view cost brand = elim (Bool-cases (text_eq view "My Brands")) [
  | inl brands ↦ rw brands (refl, refl, refl)
  | inr no_brands ↦ elim (Bool-cases (text_eq view "My Cost Center")) [
    | inl center ↦ elim (Bool-cases (text_eq view "My Projects")) [
      | inl both ↦ absurd (
          cc (
            subst (λ v. text_eq v "My Projects" ≡ true)
              ((text_eq_iff view "My Cost Center").0 center) both))
      | inr only ↦ rw (no_brands, center, only) (refl, refl, refl)
    ]
    | inr no_center ↦ elim (Bool-cases (text_eq view "My Projects")) [
      | inl projects ↦ rw (no_brands, no_center, projects) (refl, refl, refl)
      | inr none_of ↦ rw (no_brands, no_center, none_of) (refl, refl, refl)
    ]
  ]
]
