-- ===== src/Guard/Past.antt =====
-- war/editProjects.jsp, `grid.onBeforeEditCell`: the months that are over.
use mathlib.Core.Option.{some-injective}
use budget_app.Base.{
  ◌||◌, sym, ◌∙◌, ℕ, zero, suc, ◌<◌, Bool, true, false, ◌||◌, some, String, List, [], ◌∷◌, text_eq,
  ◌≡◌, refl, ◌∙◌, arith, get_elem?, All, inl, inr, Bool-cases, ◌==◌, subst,
}
use budget_app.Constants.{brand_cell}
use budget_app.Js.{Number, str, Row, loose_eq}
use budget_app.Guard
use budget_app.Guard.Decided.{and-elim, decide_edit-eq-true, brand, po, detail, later}
use budget_app.Guard.Open.{before_edit-weigh, weigh-may_edit, kept-other}

matches_month-from_month :
    (name : String) (i : ℕ) (ms : List String)
    → Guard.matches_month name ms ≡ false
    → Guard.matches_month name (Guard.from_month i ms) ≡ false
unfolding Guard.matches_month Guard.from_month
matches_month-from_month name zero ms e = e
matches_month-from_month name (suc i) [] e = refl
matches_month-from_month name (suc i) (m ∷ ms) e = matches_month-from_month name i ms (ground arith)

or-elim : (a b : Bool) → (a || b) ≡ false → (a ≡ false) × (b ≡ false)
or-elim true b e = cc
or-elim false b e = (refl, e)

clash : {b : Bool} → b ≡ false → b ≡ true → ⊥
clash e h = cc

or-intro : {a b : Bool} → a ≡ false → b ≡ false → (a || b) ≡ false
or-intro e f = rw (e, f) refl

-- No name comes twice.
Differ : List String → Type 0
Differ [] = Unit
Differ (m ∷ ms) = (Guard.matches_month m ms ≡ false) × Differ ms

matches_month-past :
    (name : String) (k i : ℕ) (ms : List String)
    → Differ ms
    → get_elem? ms k ≡ some name
    → k < i
    → Guard.matches_month name (Guard.from_month i ms) ≡ false
unfolding Guard.matches_month Guard.from_month Differ
matches_month-past name k zero ms h e lt = absurd (omega arith)
matches_month-past name k (suc i) [] h e lt = refl
matches_month-past name zero (suc i) (m ∷ ms) h e lt =
    matches_month-from_month name i ms
      (subst (λ m. Guard.matches_month m ms ≡ false) (some-injective _ _ e) h.0)
matches_month-past name (suc k) (suc i) (m ∷ ms) h e lt =
    matches_month-past name k i ms h.1 e (omega arith)

month_array-Differ : Differ Guard.month_array
unfolding Guard.matches_month Differ
month_array-Differ = (
  refl,
  (refl, (refl, (refl, (refl, (refl, (refl, (refl, (refl, (refl, (refl, (refl, tt))))))))))),
)

-- The name of a month has a meaning of its own.
IsPlain : String → Type 0
IsPlain name =
    (Guard.is_detail name || (text_eq name "PO Number" || text_eq name "Comments")) ≡ false

all_elems :
    (P : String → Type 0) (ms : List String) (name : String) (k : ℕ)
    → All P ms
    → get_elem? ms k ≡ some name
    → P name
all_elems P [] name k h e = cc
all_elems P (m ∷ ms) name zero h e = subst P (some-injective _ _ e) h.0
all_elems P (m ∷ ms) name (suc k) h e = all_elems P ms name k h.1 e

IsPlain-month : (name : String) (k : ℕ) → get_elem? Guard.month_array k ≡ some name → IsPlain name
unfolding IsPlain
IsPlain-month name k e =
    all_elems IsPlain Guard.month_array name k
      (
        refl,
        (refl, (refl, (refl, (refl, (refl, (refl, (refl, (refl, (refl, (refl, (refl, tt))))))))))),
      )
      e

module _ {N : Type 0} ⦃n : Number N⦄ where
  is_an_editable_id-other :
      (cell : ℕ) (d : Row N) (x : Bool)
      → (cell == 4) ≡ false
      → Guard.is_an_editable_id cell d ≡ some x
      → x ≡ false
  unfolding Guard.is_an_editable_id
  is_an_editable_id-other cell d x c e = ground arith

  opens_detail-past :
      (cell : ℕ) (name : String) (d : Row N) (x : Bool)
      → (cell == 4) ≡ false
      → Guard.is_detail name ≡ false
      → Guard.is_an_editable_id cell d ≡ some x
      → ¬ (Guard.opens_detail name d x ≡ true)
  unfolding Guard.opens_detail
  opens_detail-past cell name d x c plain e h =
      let (_, rest) = and-elim (Guard.is_forecast_row d) _ h in
      let (named, _) = and-elim (Guard.is_detail name || x) _ rest in
      clash (or-intro plain (is_an_editable_id-other cell d x c e)) named

  may_edit_project-past :
      (s : Guard.Screen) (cell : ℕ) (d : Row N)
      → (cell == brand_cell) ≡ false
      → (cell == 4) ≡ false
      → IsPlain (s.column cell)
      → Guard.matches_month (s.column cell) (Guard.from_month s.month Guard.month_array) ≡ false
      → Guard.first_month s.month d ≡ some s.month
      → ¬ (Guard.may_edit_project s cell d ≡ some true)
  unfolding Guard.may_edit_project Guard.opens_brand Guard.opens_po Guard.opens_later IsPlain
  may_edit_project-past s cell d b i p m c e =
      let name = s.column cell in
      let (plain, others) =
        or-elim (Guard.is_detail name) (text_eq name "PO Number" || text_eq name "Comments") p in
      let (no_po, no_comment) = or-elim (text_eq name "PO Number") _ others in
      let reason =
        decide_edit-eq-true (Guard.opens_brand cell d) (Guard.opens_po name d)
          (Guard.is_an_editable_id cell d) (Guard.opens_detail name d) (Guard.first_month s.month d)
          (Guard.opens_later name d) e in
      elim reason [
        | brand h ↦ clash b (and-elim (cell == brand_cell) _ h).0
        | po h ↦
            let (_, rest) = and-elim (Guard.is_forecast_row d) _ h in
            clash no_po (and-elim (text_eq name "PO Number") _ rest).0
        | detail x e1 h ↦ opens_detail-past cell name d x i plain e1 h
        | later j e1 h ↦
            let same = some-injective _ _ (sym c ∙ e1) in
            let over =
              subst (λ j. Guard.matches_month name (Guard.from_month j Guard.month_array) ≡ false)
                same m in
            let named =
              Guard.matches_month name (Guard.from_month j Guard.month_array)
              || text_eq name "Comments" in
            clash (or-intro over no_comment) (and-elim named _ h).0
      ]

  first_month-kept :
      (month : ℕ) (part b : Bool) (fixed : ℕ) (d : Row N)
      → Guard.first_month month (Guard.keep_month b fixed (Guard.keep_amount part fixed d))
        ≡ Guard.first_month month d
  unfolding Guard.first_month
  first_month-kept month part b fixed d =
      rw (kept-other part b fixed 38 d refl refl, kept-other part b fixed 39 d refl refl) refl

  -- In a row that is not being entered, and whose first month to edit is the current one, a cell other
  -- than the second and the fourth that shows an earlier month does not open, if the handler answers.
  pub before_edit-past :
      (s : Guard.Screen) (cell k : ℕ) (d : Row N) (r : Guard.Outcome N)
      → loose_eq (d 34) (str "New projects") ≡ false
      → (cell == brand_cell) ≡ false
      → (cell == 4) ≡ false
      → get_elem? Guard.month_array k ≡ some (s.column cell)
      → k < s.month
      → Guard.first_month s.month d ≡ some s.month
      → Guard.before_edit s cell d ≡ some r
      → r.is_allowed ≡ false
  before_edit-past s cell k d r old b i name past first e = elim (Bool-cases r.is_allowed) [
    | inr no_edit ↦ no_edit
    | inl allowed ↦
        let (_, _, _, (fixed, e1)) = before_edit-weigh s cell d r e allowed in
        let (part, redrawn, e2) = weigh-may_edit s cell fixed d r old e1 allowed in
        let kept = Guard.keep_month redrawn fixed (Guard.keep_amount part fixed d) in
        let over =
          matches_month-past (s.column cell) k s.month Guard.month_array month_array-Differ name
            past in
        absurd (
          may_edit_project-past s cell kept b i (IsPlain-month _ k name) over
            (first_month-kept s.month part redrawn fixed d ∙ first) e2)
  ]
