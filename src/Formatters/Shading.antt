-- ===== src/Formatters/Shading.antt =====
-- slick.formatters.js: which months `DollarFormatter` draws as ones that can be changed.
use mathlib.Core.Option.{some-injective}
use budget_app.Base.Order.{Distinct, sort, has_twins, has_twins-sort_iff}
use budget_app.Base.{
  ℕ, zero, suc, ◌+◌, ◌-◌, ◌≤◌, ◌<◌, ◌≡◌, refl, sym, ap, ◌∙◌, inl, inr, Bool, true, false, ◌&&◌,
  String, none, some, length, List, [], ◌∷◌, All, ◌≢◌, ◌==◌, ==_iff, subst, Option-cases,
  text_eq_refl, get_elem?, arith, ltb, leb, if◌then◌else◌, Bool-cases, text_eq, text_eq_iff,
}
use budget_app.Constants.{forecast}
use budget_app.Formatters.Amounts.{
  month_names, is_among, has_point?, plain, shaded, by_month, dollar,
}
use budget_app.Js.{Number, Value, str, Row, loose_eq}

get_elem?-All :
    (P : String → Type 0) (xs : List String) (k : ℕ) {x : String}
    → All P xs
    → get_elem? xs k ≡ some x
    → P x
get_elem?-All P [] k h e = cc
get_elem?-All P (y ∷ ys) zero (p, h) e = subst P (some-injective _ _ e) p
get_elem?-All P (y ∷ ys) (suc k) (p, h) e = get_elem?-All P ys k h e

-- A text stands in one place of a list without repetitions.
get_elem?-Distinct :
    (xs : List String) (i k : ℕ) {x : String}
    → Distinct xs
    → get_elem? xs i ≡ some x
    → get_elem? xs k ≡ some x
    → i ≡ k
get_elem?-Distinct [] i k d e f = cc
get_elem?-Distinct (y ∷ ys) zero zero d e f = refl
get_elem?-Distinct (y ∷ ys) zero (suc k) (new, d) e f =
    absurd (get_elem?-All (λ z. y ≢ z) ys k new f (some-injective _ _ e))
get_elem?-Distinct (y ∷ ys) (suc i) zero (new, d) e f =
    absurd (get_elem?-All (λ z. y ≢ z) ys i new e (some-injective _ _ f))
get_elem?-Distinct (y ∷ ys) (suc i) (suc k) (new, d) e f = ap suc (get_elem?-Distinct ys i k d e f)

months-Distinct : Distinct month_names
unfolding sort has_twins
months-Distinct = (has_twins-sort_iff month_names).0 refl

-- The name of month `k` is met exactly in the turn of month `k`.
met_lem :
    (i k : ℕ) {name : String}
    → get_elem? month_names k ≡ some name
    → (elim (get_elem? month_names i) as (λ o. Bool) [ none ↦ false | some m ↦ text_eq name m ])
      ≡ (i == k)
met_lem i k {name} e = elim (Option-cases (get_elem? month_names i)) [
  | inl gone ↦ elim (Bool-cases (i == k)) [
    | inl same ↦ absurd (no_name (sym gone ∙ ap (get_elem? month_names) ((==_iff i k).0 same) ∙ e))
    | inr apart ↦ rw (gone, apart) refl
  ]
  | inr (m, there) ↦ elim (Bool-cases (text_eq name m)) [
    | inl same ↦
        let at : i ≡ k =
          get_elem?-Distinct month_names i k months-Distinct
            (there ∙ ap some (sym ((text_eq_iff name m).0 same))) e in
        rw there (same ∙ sym ((==_iff i k).1 at))
    | inr apart ↦ elim (Bool-cases (i == k)) [
      | inl same ↦
          let here =
            some-injective _ _ (sym there ∙ ap (get_elem? month_names) ((==_iff i k).0 same) ∙ e) in
          absurd (no_truth (sym (ap (text_eq name) here ∙ text_eq_refl name) ∙ apart))
      | inr other ↦ rw there (apart ∙ sym other)
    ]
  ]
]
  where
    no_name : {x : String} → none ≡ some x → ⊥
    no_name h = cc

    no_truth : true ≡ false → ⊥
    no_truth h = cc

is_among_lem :
    (count i k : ℕ) {name : String}
    → get_elem? month_names k ≡ some name
    → is_among count i name ≡ (leb i k && ltb k (i + count))
unfolding is_among
is_among_lem zero i k e = ground arith
is_among_lem (suc count) i k e = rw (met_lem i k e, is_among_lem count (i + 1) k e) (ground arith)

no_total :
    (k : ℕ) {name : String} → get_elem? month_names k ≡ some name → text_eq name "Total" ≡ false
no_total k e =
    get_elem?-All (λ m. text_eq m "Total" ≡ false) month_names k
      (
        refl,
        (refl, (refl, (refl, (refl, (refl, (refl, (refl, (refl, (refl, (refl, (refl, tt))))))))))),
      )
      e

named_month : (k : ℕ) {name : String} → get_elem? month_names k ≡ some name → k < 12
named_month k e = elim (Bool-cases (ltb k 12)) [
  | inl below ↦ ground arith
  | inr above ↦ absurd (gone month_names k (ground arith) e)
]
  where
    gone : (xs : List String) (k : ℕ) {x : String} → length xs ≤ k → get_elem? xs k ≡ some x → ⊥
    gone [] k h e = cc
    gone (y ∷ ys) zero h e = absurd (omega arith)
    gone (y ∷ ys) (suc k) h e = gone ys k (omega arith) e

module _ {N : Type 0} ⦃n : Number N⦄ where
  -- The forecast of a whole project that is neither new nor closed nor a total.
  pub record IsOpen (d : Row N) : Type 0 where
    pub no_buttons : loose_eq (d 35) (str "Buttons") ≡ false
    pub entered : loose_eq (d 35) (str "NewProjects") ≡ false
    pub no_total : loose_eq (d 26) (str "Total") ≡ false
    pub not_closed : loose_eq (d 26) (str "Closed") ≡ false
    pub of_forecast : loose_eq (d 11) (str forecast) ≡ true
    pub undivided : has_point? (d 0) ≡ some false

  by_month_lem :
      (month k : ℕ) (name : String) (v : Value N)
      → get_elem? month_names k ≡ some name
      → month ≤ 12
      → by_month month name v ≡ str (if ltb k month then plain v else shaded v)
  unfolding by_month
  by_month_lem month k name v e h =
      let below = named_month k e in
      rw (is_among_lem month 0 k e, is_among_lem (12 - month) month k e) (ground arith)

  -- In the forecast of an open project, which is neither new nor closed nor a total nor a part, the
  -- amounts of the months from the current one on are drawn as ones that can be changed, and those
  -- of the months before are not.
  pub dollar-by_month :
      (month k : ℕ) (name : String) (d : Row N) (v : Value N)
      → get_elem? month_names k ≡ some name
      → month ≤ 12
      → IsOpen d
      → dollar month name d v ≡ some (str (if ltb k month then plain v else shaded v))
  unfolding dollar
  dollar-by_month month k name d v e h o =
      rw
        (
          o.no_buttons,
          o.entered,
          o.no_total,
          no_total k e,
          o.not_closed,
          o.of_forecast,
          o.undivided,
        )
        (ap some (by_month_lem month k name v e h))
