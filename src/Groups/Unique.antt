-- ===== src/Groups/Unique.antt =====
-- war/scripts/editProjects.js, `groupByStatus`: the names that are counted.
use budget_app.Base.{
  ◌≡◌, ◌≢◌, refl, sym, ap, ◌∙◌, inl, inr, Bool, true, false, ◌||◌, String, List, [], ◌∷◌, ◌++◌, map,
  arith, if◌then◌else◌, Bool-cases, text_eq, text_eq_iff,
}
use budget_app.Base.Order.{Distinct, IsNew}
use budget_app.Groups.{strict_eq, in_array, unique}
use budget_app.Js.{Number, Value, str}

IsNew-append : (x y : String) (xs : List String) → IsNew x xs → x ≢ y → IsNew x (xs ++ (y ∷ []))
IsNew-append x y [] h ne = (ne, tt)
IsNew-append x y (z ∷ xs) (p, h) ne = (p, IsNew-append x y xs h ne)

module _ {N : Type 0} ⦃n : Number N⦄ where
  -- Texts, as values.
  abbrev pub texts : List String → List (Value N)
  texts ss = map str ss

  texts-append : (ss ts : List String) → texts (ss ++ ts) ≡ texts ss ++ texts ts
  texts-append [] ts = refl
  texts-append (s ∷ ss) ts = ap (◌∷◌ (str s)) (texts-append ss ts)

  in_array-append :
      (v w : Value N) (vs : List (Value N))
      → in_array v (vs ++ (w ∷ [])) ≡ (in_array v vs || strict_eq w v)
  unfolding in_array
  in_array-append v w [] = ground arith
  in_array-append v w (u ∷ vs) = ground (arith, in_array-append v w vs)

module _ (N : Type 0) ⦃n : Number N⦄ where
  Distinct-append :
      (x : String) (xs : List String)
      → in_array {N = N} (str x) (texts xs) ≡ false
      → Distinct xs
      → Distinct (xs ++ (x ∷ []))
  unfolding in_array strict_eq
  Distinct-append x [] h d = (tt, tt)
  Distinct-append x (y ∷ xs) h (new, d) = elim (Bool-cases (text_eq y x)) [
    | inl same ↦ absurd (clash (rw same at h))
    | inr apart ↦ (
      IsNew-append y x xs new (λ e. clash (sym ((text_eq_iff y x).1 e) ∙ apart)),
      Distinct-append x xs (rw apart at h) d,
    )
  ]
    where
      clash : true ≡ false → ⊥
      clash h = cc

  known :
      (x s : String) (names : List String) (later : Bool)
      → in_array {N = N} (str x) (texts names) ≡ true
      → (in_array {N = N} (str s) (texts names) || later)
        ≡ (in_array {N = N} (str s) (texts names) || (if text_eq x s then true else later))
  known x s names later there = elim (Bool-cases (text_eq x s)) [
    | inl same ↦
        let at : in_array {N = N} (str s) (texts names) ≡ true =
          ap (λ y. in_array {N = N} (str y) (texts names)) (sym ((text_eq_iff x s).0 same))
          ∙ there in
        rw at refl
    | inr apart ↦ rw apart refl
  ]

  fresh :
      (x s : String) (names : List String) (later : Bool)
      → (in_array {N = N} (str s) (texts (names ++ (x ∷ []))) || later)
        ≡ (in_array {N = N} (str s) (texts names) || (if text_eq x s then true else later))
  unfolding strict_eq
  fresh x s names later =
      ap (λ b. b || later)
        (ap (in_array {N = N} (str s)) (texts-append names (x ∷ []))
          ∙ in_array-append (str s) (str x) (texts names))
      ∙ join (in_array {N = N} (str s) (texts names)) (text_eq x s) later
    where
      join : (a b c : Bool) → ((a || b) || c) ≡ (a || (if b then true else c))
      join a b c = ground arith

  unique-from :
      (names ss : List String)
      → Distinct names
      → (us : List String) × (unique {N = N} (texts names) (texts ss) ≡ texts us)
        × Distinct us
        × ((s : String)
            → in_array {N = N} (str s) (texts us)
              ≡ (in_array {N = N} (str s) (texts names) || in_array {N = N} (str s) (texts ss)))
  unfolding unique in_array strict_eq
  unique-from names [] d = (names, refl, d, λ s. ground arith)
  unique-from names (x ∷ ss) d = elim (Bool-cases (in_array {N = N} (str x) (texts names))) [
    | inl there ↦
        let (us, e, du, same) = unique-from names ss d in
        (
          us,
          rw there e,
          du,
          λ s. same s ∙ known x s names (in_array {N = N} (str s) (texts ss)) there,
        )
    | inr new ↦
        let (us, e, du, same) =
          unique-from (names ++ (x ∷ [])) ss (Distinct-append x names new d) in
        (
          us,
          rw new (ap (λ vs. unique {N = N} vs (texts ss)) (sym (texts-append names (x ∷ []))) ∙ e),
          du,
          λ s. same s ∙ fresh x s names (in_array {N = N} (str s) (texts ss)),
        )
  ]

  -- The names that are counted for a list of texts are pairwise different texts, and are the same
  -- texts as those of the list.
  pub unique-Distinct :
      (ss : List String)
      → (us : List String) × (unique {N = N} [] (texts ss) ≡ texts us)
        × Distinct us
        × ((s : String) → in_array {N = N} (str s) (texts us) ≡ in_array {N = N} (str s) (texts ss))
  unfolding in_array
  unique-Distinct ss = unique-from [] ss tt
