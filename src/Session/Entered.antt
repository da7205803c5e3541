-- ===== src/Session/Entered.antt =====
-- war/scripts/editProjects.js: the entered projects among the rows of a page.
use mathlib.Core.Option.{some-injective}
use Prim.Native.String.{count}
use text.Mathlib.TextLemmas.{append_inj, length-append}
use budget_app.Base.{
  ℕ, zero, suc, ◌≡◌, refl, subst, text_eq_iff, ap, inl, inr, Bool, true, false, String, some, List,
  [], ◌∷◌, ◌++◌, arith, ◌==◌, text_eq, concat, if◌then◌else◌, Bool-cases, >>=-eq-some,
}
use budget_app.Create.{
  Grid, insert_item, delete_item, made, project_fields, insert_buttons, create_new, create_int,
}
use budget_app.Js.{Number, str}
use budget_app.Page.{Item, Effect}

-- No identifier that a handler makes for a project is "id_0".
id-text : (s : String) → text_eq (concat "id_" (concat s "1")) "id_0" ≡ false
id-text s = elim (Bool-cases (text_eq (concat "id_" (concat s "1")) "id_0")) [
  | inl same ↦
      let whole : concat "id_" (concat s "1") ≡ concat "id_" "0" = (text_eq_iff _ "id_0").0 same in
      let short = (append_inj {s₁ = "id_"} {s₂ = "id_"} whole refl).1 in
      let size : count s ≡ 0 = omega (arith, length-append s "1", ap count short) in
      let last = (append_inj {s₁ = s} {s₂ = ""} {t₁ = "1"} {t₂ = "0"} short size).1 in
      absurd (different last)
  | inr other ↦ other
]
  where
    different : ◌≡◌ {A = String} "1" "0" → ⊥
    different e = let h : ◌≡◌ {A = Bool} false true = (text_eq_iff "1" "0").1 e in ground (arith, h)

module _ {N : Type 0} ⦃n : Number N⦄ where
  -- A row that has been entered on the page; it is not the row that stands for an empty group.
  abbrev pub IsEntered : Item N → Type 0
  IsEntered d = (d.cells 35 ≡ str "NewProjects") × (text_eq d.id "id_0" ≡ false)

  -- There are `count` rows, and the first ones have been entered.
  abbrev pub StartsEntered : ℕ → List (Item N) → Type 0
  StartsEntered zero ds = Unit
  StartsEntered (suc count) [] = ⊥
  StartsEntered (suc count) (d ∷ ds) = IsEntered d × StartsEntered count ds

  pub StartsEntered-append :
      (count : ℕ) (ds es : List (Item N)) → StartsEntered count ds → StartsEntered count (ds ++ es)
  StartsEntered-append zero ds es h = tt
  StartsEntered-append (suc count) [] es h = absurd h
  StartsEntered-append (suc count) (d ∷ ds) es (e, h) = (e, StartsEntered-append count ds es h)

  StartsEntered-delete_item :
      (count : ℕ) (ds ds' : List (Item N))
      → delete_item "id_0" ds ≡ some ds'
      → StartsEntered count ds
      → StartsEntered count ds'
  unfolding delete_item
  StartsEntered-delete_item zero ds ds' e h = tt
  StartsEntered-delete_item (suc count) [] ds' e h = absurd h
  StartsEntered-delete_item (suc count) (d ∷ ds) ds' e ((new, other), h) =
      let (rest, er, e1) = >>=-eq-some (delete_item "id_0" ds) _ (rw other at e) in
      subst (StartsEntered (suc count)) (some-injective _ _ e1)
        ((new, other), StartsEntered-delete_item count ds rest er h)

  made-IsEntered : (length : ℕ) (user : String) → IsEntered (made length "1" (project_fields user))
  unfolding made project_fields
  made-IsEntered length user = (refl, id-text (n.show (n.of_nat length)))

  pub create_new-StartsEntered :
      (user : String) (g : Grid N)
      → StartsEntered g.addsave g.rows
      → StartsEntered (create_new user g).0.addsave (create_new user g).0.rows
  unfolding create_new insert_item insert_buttons
  create_new-StartsEntered user g h = elim (Bool-cases (g.addsave == 0)) [
    | inl none_yet ↦ let at : g.addsave ≡ 0 = ground arith in rw at (made-IsEntered _ user, tt)
    | inr some_there ↦ rw some_there (made-IsEntered _ user, h)
  ]

  pub create_int-StartsEntered :
      (user : String) (g g' : Grid N) (effects : List (Effect N))
      → create_int user g ≡ some (g', effects)
      → StartsEntered g.addsave g.rows
      → StartsEntered g'.addsave g'.rows
  unfolding create_int insert_item insert_buttons
  create_int-StartsEntered user g g' effects e h =
      let (old, eo, e1) =
        >>=-eq-some (if g.new_exist then some g.rows else delete_item "id_0" g.rows) _ e in
      let kept : StartsEntered g.addsave old = elim (Bool-cases g.new_exist) [
        | inl there ↦ subst (StartsEntered g.addsave) (some-injective _ _ (rw there at eo)) h
        | inr missing ↦ StartsEntered-delete_item g.addsave g.rows old (rw missing at eo) h
      ] in
      subst (λ r. StartsEntered r.addsave r.rows) (ap (λ t. t.0) (some-injective _ _ e1))
        (elim (Bool-cases (g.addsave == 0)) [
          | inl none_yet ↦
              let at : g.addsave ≡ 0 = ground arith in rw at (made-IsEntered _ user, tt)
          | inr some_there ↦ rw some_there (made-IsEntered _ user, kept)
        ])
