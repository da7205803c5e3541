-- ===== src/Edit/Kept/Loops.antt =====
-- war/scripts/editProjects.js, `updateMemCache`: what a row is, and the loops besides the one over
-- the rows.
use mathlib.Core.Option.{some-injective}
use budget_app.Base.{
  ℕ, zero, suc, ◌≡◌, ap, subst, inl, inr, true, ◌&&◌, Option, none, some, List, [], ◌∷◌, contains,
  Bool-cases, >>=-eq-some,
}
use budget_app.Edit.Brand.{copy_brand}
use budget_app.Edit.Cells.{is_month, is_live}
use budget_app.Edit.Kept.{Same-refl, Same-trans, SameRows, SameRows-refl, put-month-Same}
use budget_app.Edit.Remainder.{store, add_change, remainder}
use budget_app.Edit.Rows.{Change}
use budget_app.Edit.Update.{set_field, copy_remark}
use budget_app.Js.{Number, Value, str, Row, to_string?, loose_eq, parse}

module _ {N : Type 0} where
  pub SameRows-trans : (cs ds es : List (Row N)) → SameRows cs ds → SameRows ds es → SameRows cs es
  SameRows-trans [] [] [] h k = tt
  SameRows-trans (c ∷ cs) (d ∷ ds) (e ∷ es) (h, hs) (k, ks) =
      (Same-trans c d e h k, SameRows-trans cs ds es hs ks)
  SameRows-trans [] [] (e ∷ es) h k = absurd k
  SameRows-trans [] (d ∷ ds) es h k = absurd h
  SameRows-trans (c ∷ cs) [] es h k = absurd h
  SameRows-trans (c ∷ cs) (d ∷ ds) [] h k = absurd k

  pub set_field-SameRows :
      (at : ℕ) (v : Value N) (ds : List (Row N)) → SameRows ds (set_field at 8 v ds)
  unfolding set_field
  set_field-SameRows at v [] = tt
  set_field-SameRows zero v (d ∷ ds) = (Same-refl d, SameRows-refl ds)
  set_field-SameRows (suc at) v (d ∷ ds) = (Same-refl d, set_field-SameRows at v ds)

module _ {N : Type 0} ⦃n : Number N⦄ where
  store-SameRows :
      (cell : ℕ) (id v : Value N) (ds : List (Row N))
      → is_month cell ≡ true
      → SameRows ds (store cell id v ds)
  unfolding store
  store-SameRows cell id v [] h = tt
  store-SameRows cell id v (d ∷ ds) h =
      let rest = store-SameRows cell id v ds h in
      elim (Bool-cases (loose_eq (d 27) id)) [
        | inl e ↦ rw e (put-month-Same d cell v h, rest)
        | inr e ↦ rw e (Same-refl d, rest)
      ]

  pub copy_brand-SameRows :
      (key brand : Value N) (ds : List (Row N)) → SameRows ds (copy_brand key brand ds)
  unfolding copy_brand
  copy_brand-SameRows key brand [] = tt
  copy_brand-SameRows key brand (d ∷ ds) = elim (Bool-cases (loose_eq key (d 34) && is_live d)) [
    | inl e ↦ rw e (Same-refl d, copy_brand-SameRows key brand ds)
    | inr e ↦ rw e (Same-refl d, copy_brand-SameRows key brand ds)
  ]

  pub copy_remark-SameRows :
      (left : ℕ) (item : Row N) (ds es : List (Row N))
      → copy_remark left item ds ≡ some es
      → SameRows ds es
  unfolding copy_remark
  copy_remark-SameRows zero item ds es h =
      subst (SameRows ds) (some-injective _ _ h) (SameRows-refl ds)
  copy_remark-SameRows (suc left) item [] es h = cc
  copy_remark-SameRows (suc left) item (d ∷ ds) es h =
      let (rest, er, h1) = >>=-eq-some (copy_remark left item ds) _ h in
      let later = copy_remark-SameRows left item ds rest er in
      subst (SameRows (d ∷ ds)) (some-injective _ _ h1)
        (elim (Bool-cases (loose_eq (d 31) (item 31))) [
          | inl e ↦ rw e (Same-refl d, later)
          | inr e ↦ rw e (Same-refl d, later)
        ])

  add_change-rows :
      (c : Change N) (m : Option (List (Change N) × List (Row N))) (cs' : List (Change N))
      (es : List (Row N))
      → add_change c m ≡ some (cs', es)
      → (cs : List (Change N)) × (m ≡ some (cs, es))
  add_change-rows c none cs' es e = cc
  add_change-rows c (some (cs, ds)) cs' es e =
      (cs, ap (λ r. some (cs, r)) (ap (λ t. t.1) (some-injective _ _ e)))

  pub remainder-SameRows :
      (cell : ℕ) (total used : Value N) (cs cs' : List (Change N)) (ds es : List (Row N))
      → is_month cell ≡ true
      → remainder cell total used cs ds ≡ some (cs', es)
      → SameRows ds es
  unfolding remainder
  remainder-SameRows cell total used [] cs' ds es m h =
      subst (λ r. SameRows ds r.1) (some-injective _ _ h) (SameRows-refl ds)
  remainder-SameRows cell total used ((id, v) ∷ []) cs' ds es m h =
      let (s, hs, h1) = >>=-eq-some (to_string? id) _ h in
      elim (Bool-cases (contains s ".")) [
        | inl e ↦
            subst (λ r. SameRows ds r.1) (some-injective _ _ (rw e at h1))
              (store-SameRows cell id _ ds m)
        | inr e ↦ subst (λ r. SameRows ds r.1) (some-injective _ _ (rw e at h1)) (SameRows-refl ds)
      ]
  remainder-SameRows cell total used ((id, v) ∷ c ∷ cs) cs' ds es m h =
      let (s, hs, h1) = >>=-eq-some (to_string? id) _ h in
      elim (Bool-cases (contains s ".")) [
        | inl e ↦
            let used' = str (n.to_fixed (n.add (parse used) (parse v))) in
            let (_, hr) =
              add_change-rows (id, v) (remainder cell total used' (c ∷ cs) ds) cs' es
                (rw e at h1) in
            remainder-SameRows cell total used' (c ∷ cs) _ ds es m hr
        | inr e ↦
            let total' = str (n.to_fixed (parse v)) in
            let (_, hr) =
              add_change-rows (id, v) (remainder cell total' used (c ∷ cs) ds) cs' es
                (rw e at h1) in
            remainder-SameRows cell total' used (c ∷ cs) _ ds es m hr
      ]
