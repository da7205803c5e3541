-- ===== src/Create/Entered.antt =====
-- war/scripts/editProjects.js, `createNewProjects`: where an entered project stands.
use budget_app.Base.{
  ℕ, zero, suc, ◌≡◌, refl, inl, inr, String, List, [], ◌∷◌, arith, ◌==◌, Bool-cases,
}
use budget_app.Create.{Grid, insert_item, made, project_fields, insert_buttons, create_new}
use budget_app.Js.{Number, str}
use budget_app.Page.{Item}

module _ {N : Type 0} ⦃n : Number N⦄ where
  -- The first `count` rows exist and are projects that have just been entered.
  abbrev pub Entered : ℕ → List (Item N) → Type 0
  Entered zero ds = Unit
  Entered (suc count) [] = ⊥
  Entered (suc count) (d ∷ ds) = (d.cells 35 ≡ str "NewProjects") × Entered count ds

  -- The rows that `submitProjects` reads are entered projects.
  abbrev pub IsInStep : Grid N → Type 0
  IsInStep g = Entered g.addsave g.rows

  project_fields-new : (user : String) → project_fields {N = N} user 35 ≡ str "NewProjects"
  unfolding project_fields
  project_fields-new user = refl

  -- Entering a project keeps the entered projects first and counts one more.
  pub create_new-IsInStep :
      (user : String) (g : Grid N)
      → IsInStep g
      → IsInStep (create_new user g).0 × ((create_new user g).0.addsave ≡ suc g.addsave)
  unfolding create_new insert_item insert_buttons made
  create_new-IsInStep user g h = elim (Bool-cases (g.addsave == 0)) [
    | inl none_yet ↦
        let at : g.addsave ≡ 0 = ground arith in rw at ((project_fields-new user, tt), refl)
    | inr some_there ↦ rw some_there ((project_fields-new user, h), refl)
  ]
