-- ===== src/Guard/Current.antt =====
-- war/editProjects.jsp, `grid.onBeforeEditCell`: the months that are not over.
use mathlib.Core.Option.{some-injective}
use budget_app.Base.{
  not, ◌&&◌, ◌==◌, Bool, Option, Bool-cases, inl, inr, ℕ, zero, suc, ◌≤◌, true, false, ◌||◌, some,
  String, List, [], ◌∷◌, text_eq, text_eq_refl, ◌≡◌, refl, sym, arith, get_elem?, contains, subst,
}
use budget_app.Constants.{forecast}
use budget_app.Js.{Number, str, Row, loose_eq, to_string?}
use budget_app.Guard

matches_month-elem :
    (name : String) (k : ℕ) (ms : List String)
    → get_elem? ms k ≡ some name
    → Guard.matches_month name ms ≡ true
unfolding Guard.matches_month
matches_month-elem name k [] e = cc
matches_month-elem name zero (m ∷ ms) e =
    let same =
      subst (λ m. text_eq name m ≡ true) (sym (some-injective _ _ e)) (text_eq_refl name) in
    rw same refl
matches_month-elem name (suc k) (m ∷ ms) e =
    let later = matches_month-elem name k ms e in ground arith

matches_month-current :
    (name : String) (i k : ℕ) (ms : List String)
    → get_elem? ms k ≡ some name
    → i ≤ k
    → Guard.matches_month name (Guard.from_month i ms) ≡ true
unfolding Guard.from_month
matches_month-current name zero k ms e le = matches_month-elem name k ms e
matches_month-current name (suc i) k [] e le = cc
matches_month-current name (suc i) zero (m ∷ ms) e le = absurd (omega arith)
matches_month-current name (suc i) (suc k) (m ∷ ms) e le =
    matches_month-current name i k ms e (omega arith)

-- The last test decides for what it asks, whatever those before it say.
decide_edit-later :
    (a b : Bool) {x : Bool} {id : Option Bool} {first : Option ℕ} (f : Bool → Bool) (i : ℕ)
    (g : ℕ → Bool)
    → id ≡ some x
    → first ≡ some i
    → g i ≡ true
    → Guard.decide_edit a b id f first g ≡ some true
unfolding Guard.decide_edit
decide_edit-later true b f i g e h k = refl
decide_edit-later false true f i g e h k = refl
decide_edit-later false false {x = x} f i g e h k = elim (Bool-cases (f x)) [
  | inl t ↦ rw (e, t) refl
  | inr t ↦ rw (e, t, h, k) refl
]

module _ {N : Type 0} ⦃n : Number N⦄ where
  may_edit_project-current :
      (s : Guard.Screen) (cell i : ℕ) (d : Row N) (id : String)
      → Guard.is_forecast_row d ≡ true
      → Guard.has_status d "Total" ≡ false
      → to_string? (d 0) ≡ some id
      → Guard.first_month s.month d ≡ some i
      → Guard.matches_month (s.column cell) (Guard.from_month i Guard.month_array) ≡ true
      → Guard.may_edit_project s cell d ≡ some true
  unfolding Guard.may_edit_project Guard.is_an_editable_id Guard.opens_later
  may_edit_project-current s cell i d id f t z c m =
      let asks : Guard.is_an_editable_id cell d ≡ some (not (contains id ".") && (cell == 4)) =
        rw (f, z) refl in
      decide_edit-later (Guard.opens_brand cell d) (Guard.opens_po (s.column cell) d)
        (Guard.opens_detail (s.column cell) d) i (Guard.opens_later (s.column cell) d) asks c
        (rw (m, f, t) refl)

  -- A forecast of a whole project is neither foreign nor locked.
  answer-current :
      (s : Guard.Screen) (cell fixed : ℕ) (copy d : Row N)
      → Guard.is_accrual_row d ≡ false
      → loose_eq (d 34) (str "New projects") ≡ false
      → Guard.may_edit_project s cell d ≡ some true
      → (r : Guard.Outcome N) × (Guard.answer s cell fixed false copy d ≡ some r)
        × (r.is_allowed ≡ true)
  unfolding Guard.answer
  answer-current s cell fixed copy d a old edits =
      let free : Guard.is_locked false d ≡ false = ground arith in
      rw (a, old, free, edits) (_, refl, refl)

  weigh-current :
      (s : Guard.Screen) (cell fixed : ℕ) (d : Row N) (key : String)
      → to_string? (d 27) ≡ some key
      → contains key "." ≡ false
      → Guard.is_accrual_row d ≡ false
      → loose_eq (d 34) (str "New projects") ≡ false
      → Guard.may_edit_project s cell d ≡ some true
      → (r : Guard.Outcome N) × (Guard.weigh s cell fixed d ≡ some r) × (r.is_allowed ≡ true)
  unfolding Guard.weigh
  weigh-current s cell fixed d key k whole a old edits =
      let own : Guard.is_foreign d ≡ false = ground arith in
      rw (k, whole, own) (answer-current s cell fixed d d a old edits)

  -- On a page at rest, for a stored forecast that is neither closed nor a total, with a key without a
  -- point, a text as identifier and a first month to edit, the handler answers, and the cells of the
  -- months from that one on open.
  pub before_edit-current :
      (s : Guard.Screen) (cell i k : ℕ) (d : Row N) (status key id : String)
      → (s.is_saving || s.is_covered) ≡ false
      → d 11 ≡ str forecast
      → d 26 ≡ str status
      → text_eq status "Closed" ≡ false
      → text_eq status "Total" ≡ false
      → d 27 ≡ str key
      → contains key "." ≡ false
      → d 0 ≡ str id
      → loose_eq (d 34) (str "New projects") ≡ false
      → Guard.first_month s.month d ≡ some i
      → get_elem? Guard.month_array k ≡ some (s.column cell)
      → i ≤ k
      → (r : Guard.Outcome N) × (Guard.before_edit s cell d ≡ some r) × (r.is_allowed ≡ true)
  unfolding Guard.before_edit loose_eq
  before_edit-current s cell i k d status key id rest forecast_row stands not_closed not_total part
        whole z old first name le =
      let open_month = matches_month-current (s.column cell) i k Guard.month_array name le in
      let edits =
        may_edit_project-current s cell i d id (rw forecast_row refl) (rw stands not_total)
          (rw z refl) first open_month in
      let going : Guard.has_status d "Closed" ≡ false = rw stands not_closed in
      rw (rest, going)
        (weigh-current s cell _ d key (rw part refl) whole (rw forecast_row refl) old edits)
