-- ===== src/Removal/Rights.antt =====
-- war/scripts/editProjects.js, `deleteCurrentProject`: who may delete a project.
use mathlib.Core.Option.{some-injective}
use budget_app.Base.{
  ◌≡◌, refl, ap, ◌∙◌, ◌↔◌, ◌⊎◌, inl, inr, Bool, true, false, String, Option, none, some, List,
  get_elem?, arith, if◌then◌else◌, split,
}
use budget_app.Js.{Number, Value, str, loose_eq}
use budget_app.Page.{Effect, sends}
use budget_app.Removal.{part, objection, proceed, delete_project}

module _ {N : Type 0} where
  proceed_iff :
      (accepted : Bool) (cost id owner : Value N) (barred : Option String)
      → (sends (proceed accepted cost id owner barred) ≡ true)
        ↔ ((accepted ≡ true) × (barred ≡ none))
  unfolding proceed
  proceed_iff accepted cost id owner barred = ground arith

module _ {N : Type 0} ⦃n : Number N⦄ where
  objection-eq-none_iff :
      (user : String) (cut_off created : N) (owner state : Value N)
      → (objection user cut_off created owner state ≡ none) ↔ (
          (loose_eq owner (str user) ≡ true)
          × (loose_eq state (str "New") ≡ true)
          × (n.lt created cut_off ≡ false))
  unfolding objection
  objection-eq-none_iff user cut_off created owner state = ground arith

  barred_iff :
      (is_owner : Bool) (user : String) (cut_off created : N) (owner state : Value N)
      → ((if is_owner then objection user cut_off created owner state else none) ≡ none) ↔ (
          (is_owner ≡ false)
          ⊎ ((loose_eq owner (str user) ≡ true)
              × (loose_eq state (str "New") ≡ true)
              × (n.lt created cut_off ≡ false)))
  barred_iff false user cut_off created owner state = (λ _. inl refl, λ _. refl)
  barred_iff true user cut_off created owner state =
      let (to, from) = objection-eq-none_iff user cut_off created owner state in
      (λ h. inr (to h), λ h. elim h [ inl e ↦ cc | inr all ↦ from all ])

  -- For a button whose value has a third part, the date, the request is made exactly when the
  -- user confirms and either has not the role of a project owner, or owns the project, which is
  -- new and was not created before the cut-off date.
  pub delete_iff :
      (date_of : List String → N) (is_owner : Bool) (user : String) (cut_off : N) (accepted : Bool)
      (cost : Value N) (button date : String)
      → get_elem? (split b'~' button) 2 ≡ some date
      → let parts = split b'~' button in
        ((effects : List (Effect N)) × (delete_project date_of is_owner user cut_off accepted cost
              button
            ≡ some effects)
          × (sends effects ≡ true))
        ↔ ((accepted ≡ true)
            × ((is_owner ≡ false)
                ⊎ ((loose_eq (part {N = N} parts 1) (str user) ≡ true)
                    × (loose_eq (part {N = N} parts 3) (str "New") ≡ true)
                    × (n.lt (date_of (split b'_' date)) cut_off ≡ false))))
  unfolding delete_project objection
  delete_iff date_of is_owner user cut_off accepted cost button date e =
      let parts = split b'~' button in
      let barred =
        if is_owner
        then objection user cut_off (date_of (split b'_' date)) (part parts 1) (part parts 3)
        else none in
      let (to, from) = proceed_iff accepted cost (part parts 0) (part parts 1) barred in
      let (to', from') =
        barred_iff is_owner user cut_off (date_of (split b'_' date)) (part parts 1)
          (part parts 3) in
      rw e (
        λ (effects, q, sent). let h = to (ap sends (some-injective _ _ q) ∙ sent) in (h.0, to' h.1),
        λ h. (_, refl, from (h.0, from' h.1)),
      )
