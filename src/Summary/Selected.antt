-- ===== src/Summary/Selected.antt =====
-- war/scripts/editProjects.js, `getSummaryValues`: what the page shows of a summary.
use budget_app.Base.{
  ◌≡◌, refl, sym, subst, inl, inr, String, Option, none, some, [], ◌∷◌, map, text_eq, text_eq_iff,
  if◌then◌else◌, Bool-cases, List, true, false,
}
use mathlib.Core.List.{append-nil}
use budget_app.Base.Order.{Distinct, IsNew}
use budget_app.Js.{Number, Value, str}
use budget_app.Page.{Effect, set_value, colour}
use budget_app.Summary.{BudgetSummary, BudgetMap, show_entry, show_entries, get_summary_values}

module _ {N : Type 0} where
  abbrev pub entry_of : String → BudgetMap N → Option (BudgetSummary N)
  entry_of selected [] = none
  entry_of selected ((key, v) ∷ es) = if text_eq key selected then some v else entry_of selected es

module _ {N : Type 0} ⦃n : Number N⦄ where
  show_entries-absent :
      (selected : String) (es : BudgetMap N)
      → IsNew selected (map (λ e. e.0) es)
      → show_entries selected es ≡ []
  unfolding show_entries
  show_entries-absent selected [] h = refl
  show_entries-absent selected ((key, v) ∷ es) (apart, h) =
      elim (Bool-cases (text_eq key selected)) [
        | inl same ↦ absurd (apart (sym ((text_eq_iff key selected).0 same)))
        | inr other ↦ rw other (show_entries-absent selected es h)
      ]

  abbrev shown_entry : Option (BudgetSummary N) → List (Effect N)
  shown_entry none = []
  shown_entry (some v) = show_entry v

  get_summary_values-shown_entry :
      (view cost selected : String) (es : BudgetMap N)
      → Distinct (map (λ e. e.0) es)
      → get_summary_values view cost selected (some es) ≡ shown_entry (entry_of selected es)
  unfolding get_summary_values show_entries
  get_summary_values-shown_entry view cost selected [] h = refl
  get_summary_values-shown_entry view cost selected ((key, v) ∷ es) (new, h) =
      elim (Bool-cases (text_eq key selected)) [
        | inl same ↦
            let eq = (text_eq_iff key selected).0 same in
            let gone =
              show_entries-absent selected es (subst (λ k. IsNew k (map (λ e. e.0) es)) eq new) in
            rw same (rw gone (append-nil (show_entry v)))
        | inr other ↦ rw other (get_summary_values-shown_entry view cost selected es h)
      ]

  -- The text that the last write to an element leaves in it.
  abbrev pub text_in : String → List (Effect N) → Option (Value N)
  text_in id [] = none
  text_in id (set_value j v ∷ es) =
      let later = text_in id es in
      let here = if text_eq id j then some v else none in
      elim later [ none ↦ here | some w ↦ some w ]
  text_in id (_ ∷ es) = text_in id es

  abbrev pub background_of : String → List (Effect N) → Option String
  background_of id [] = none
  background_of id (colour j c ∷ es) =
      let later = background_of id es in
      let here = if text_eq id j then some c else none in
      elim later [ none ↦ here | some w ↦ some w ]
  background_of id (_ ∷ es) = background_of id es

  -- The quotient that decides on the colour: the variance in percent of the budget, both as printed.
  abbrev pub variance_percent : BudgetSummary N → N
  variance_percent v =
      n.mul
        (n.div (n.to_number (n.to_fixed v.variance_total))
          (n.to_number (n.to_fixed v.total_budget)))
        (n.of_nat 100)

  -- The page after the effects: five amounts with two decimals, of which the one called variance is
  -- the stored budget left to spend, and one background for the label and the amount of the variance.
  pub record Shows (v : BudgetSummary N) (es : List (Effect N)) : Type 0 where
    pub budget : text_in "totalBudget" es ≡ some (str (n.to_fixed v.total_budget))
    pub planned : text_in "plannedTotal" es ≡ some (str (n.to_fixed v.planned_total))
    pub left :
        text_in "budgetLeftToSpend" es
        ≡ some (
            str (
              n.to_fixed (
                n.sub
                  (n.to_number (n.to_fixed v.total_budget))
                  (n.to_number (n.to_fixed v.planned_total)))))
    pub accrued : text_in "accrualTotal" es ≡ some (str (n.to_fixed v.accrual_total))
    pub variance : text_in "varianceTotal" es ≡ some (str (n.to_fixed v.budget_left_to_spend))
    pub label : background_of "varTotalLabel" es ≡ background_of "varTotalText" es
    pub white :
        n.eq (variance_percent v) (n.of_nat 0) ≡ true
        → background_of "varTotalText" es ≡ some "#FFFFFF"
    pub yellow :
        n.eq (variance_percent v) (n.of_nat 0) ≡ false
        → n.lt (variance_percent v) (n.of_nat 5) ≡ true
        → background_of "varTotalText" es ≡ some "yellow"
    pub cyan :
        n.eq (variance_percent v) (n.of_nat 0) ≡ false
        → n.lt (variance_percent v) (n.of_nat 5) ≡ false
        → background_of "varTotalText" es ≡ some "#00FFFF"

  show_entry-Shows : (v : BudgetSummary N) → Shows v (show_entry v)
  unfolding show_entry
  show_entry-Shows v = record {
    budget = refl;
    planned = refl;
    left = refl;
    accrued = refl;
    variance = refl;
    label = refl;
    white = λ zero_share. rw zero_share refl;
    yellow = λ some_share below. rw (some_share, below) refl;
    cyan = λ some_share above. rw (some_share, above) refl;
  }

  abbrev pub ShowsEntry : Option (BudgetSummary N) → List (Effect N) → Type 0
  ShowsEntry none es = es ≡ []
  ShowsEntry (some v) es = Shows v es

  shown_entry-ShowsEntry : (o : Option (BudgetSummary N)) → ShowsEntry o (shown_entry o)
  shown_entry-ShowsEntry none = refl
  shown_entry-ShowsEntry (some v) = show_entry-Shows v

  -- With a summary whose keys are different, the page shows the amounts of the selected brand's entry
  -- and the colour for its variance; for a brand without an entry nothing is written.
  pub get_summary_values-entry_of :
      (view cost selected : String) (es : BudgetMap N)
      → Distinct (map (λ e. e.0) es)
      → ShowsEntry (entry_of selected es) (get_summary_values view cost selected (some es))
  get_summary_values-entry_of view cost selected es h =
      subst (ShowsEntry (entry_of selected es))
        (sym (get_summary_values-shown_entry view cost selected es h))
        (shown_entry-ShowsEntry (entry_of selected es))
