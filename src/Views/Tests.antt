-- ===== src/Views/Tests.antt =====
-- Choices of a view.
use budget_app.Base.{List, ◌≡◌, refl, [], ◌∷◌}
use budget_app.Js.{undefined, str}
use budget_app.Js.Decimal.{Decimal}
use budget_app.Views.{select_user_view, select_user_view1, cost_center_details, available_tags}
use budget_app.Views.Forms.{Inputs, Submission, submitted, submitted-view_form}

submitted-view_form_example :
    let blank : Inputs Decimal = λ id. undefined in
    let chosen : List (Submission Decimal) =
      ("getCostCentre", str "My Cost Center", str "7034") ∷ [] in
    (submitted blank (select_user_view "My Cost Center" "7034" "Avastin") ≡ chosen)
    × (submitted blank (select_user_view1 "My Cost Center" "7034" "Avastin") ≡ chosen)
    × (submitted blank (cost_center_details "My Cost Center" "7034") ≡ chosen)
submitted-view_form_example =
    submitted-view_form Decimal (λ id. undefined) "My Cost Center" "7034" "Avastin"

tags_written :
    available_tags ("a" ∷ "b" ∷ "c" ∷ []) ("Avastin" ∷ []) ≡ "Smart WBS" ∷ "Avastin" ∷ "c" ∷ []
unfolding available_tags
tags_written = refl
