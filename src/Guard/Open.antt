-- ===== src/Guard/Open.antt =====
-- war/editProjects.jsp, `grid.onBeforeEditCell`: what is known of a row whose cell opens.
use mathlib.Core.Option.{some-injective}
use budget_app.Base.{
  ap, ℕ, Bool, true, false, ◌&&◌, ◌||◌, Option, some, String, text_eq, text_eq_iff, ◌≡◌, refl,
  arith, sym, ◌∙◌, ◌==◌, inl, inr, contains, List, Bool-cases, >>=-eq-some, subst,
}
use budget_app.Constants.{brand_cell, forecast}
use budget_app.Js.{Number, Value, str, Row, loose_eq, to_string?}
use budget_app.Guard
use budget_app.Guard.Decided.{and-elim, not-elim, decide_edit-eq-true, brand, po, detail, later}

new_not_total : (status : String) → text_eq status "New" ≡ true → text_eq status "Total" ≡ false
new_not_total status e =
    subst (λ s. text_eq s "Total" ≡ false) (sym ((text_eq_iff status "New").0 e)) refl

module _ {N : Type 0} ⦃n : Number N⦄ where
  -- The page is at rest, and the row is a forecast of a project that is neither closed nor a total.
  abbrev pub IsEditable : Guard.Screen → String → Row N → Type 0
  IsEditable s status d =
      (s.is_saving ≡ false)
      × (s.is_covered ≡ false)
      × (text_eq status "Closed" ≡ false)
      × (text_eq status "Total" ≡ false)
      × (Guard.is_forecast_row d ≡ true)

  -- Each of the four tests asks for a forecast that is no total.
  IsLive : Row N → Type 0
  IsLive d = (Guard.is_forecast_row d ≡ true) × (Guard.has_status d "Total" ≡ false)

  opens_brand-IsLive :
      (cell : ℕ) (d : Row N)
      → (Guard.has_status d "New" ≡ true → Guard.has_status d "Total" ≡ false)
      → Guard.opens_brand cell d ≡ true
      → IsLive d
  unfolding Guard.opens_brand IsLive
  opens_brand-IsLive cell d new h =
      let (_, rest) = and-elim (cell == brand_cell) _ h in
      let (f, n) = and-elim (Guard.is_forecast_row d) _ rest in (f, new n)

  opens_po-IsLive : (name : String) (d : Row N) → Guard.opens_po name d ≡ true → IsLive d
  unfolding Guard.opens_po IsLive
  opens_po-IsLive name d h =
      let (f, rest) = and-elim (Guard.is_forecast_row d) _ h in
      let (_, last) = and-elim (text_eq name "PO Number") _ rest in
      (f, not-elim _ (and-elim _ _ last).0)

  opens_detail-IsLive :
      (name : String) (d : Row N) (x : Bool) → Guard.opens_detail name d x ≡ true → IsLive d
  unfolding Guard.opens_detail IsLive
  opens_detail-IsLive name d x h =
      let (f, rest) = and-elim (Guard.is_forecast_row d) _ h in
      let (_, last) = and-elim (Guard.is_detail name || x) _ rest in
      (f, not-elim _ (and-elim _ _ last).0)

  opens_later-IsLive :
      (name : String) (d : Row N) (i : ℕ) → Guard.opens_later name d i ≡ true → IsLive d
  unfolding Guard.opens_later IsLive
  opens_later-IsLive name d i h =
      let (_, rest) =
        and-elim
          (Guard.matches_month name (Guard.from_month i Guard.month_array)
            || text_eq name "Comments")
          _ h in
      let (f, t) = and-elim (Guard.is_forecast_row d) _ rest in (f, not-elim _ t)

  may_edit_project-IsLive :
      (s : Guard.Screen) (cell : ℕ) (d : Row N)
      → (Guard.has_status d "New" ≡ true → Guard.has_status d "Total" ≡ false)
      → Guard.may_edit_project s cell d ≡ some true
      → IsLive d
  unfolding Guard.may_edit_project
  may_edit_project-IsLive s cell d new e = elim (decide_edit-eq-true _ _ _ _ _ _ e) [
    | brand h ↦ opens_brand-IsLive cell d new h
    | po h ↦ opens_po-IsLive (s.column cell) d h
    | detail x _ h ↦ opens_detail-IsLive (s.column cell) d x h
    | later i _ h ↦ opens_later-IsLive (s.column cell) d i h
  ]

  keep_month-other :
      (b : Bool) (fixed j : ℕ) (d : Row N) → (43 == j) ≡ false → Guard.keep_month b fixed d j ≡ d j
  keep_month-other true fixed j d e = rw e refl
  keep_month-other false fixed j d e = refl

  keep_amount-other :
      (part : Bool) (fixed j : ℕ) (d : Row N)
      → (50 == j) ≡ false
      → Guard.keep_amount part fixed d j ≡ d j
  keep_amount-other part fixed j d e = ground arith

  pub kept-other :
      (part b : Bool) (fixed j : ℕ) (d : Row N)
      → (43 == j) ≡ false
      → (50 == j) ≡ false
      → Guard.keep_month b fixed (Guard.keep_amount part fixed d) j ≡ d j
  kept-other part b fixed j d e f =
      keep_month-other b fixed j (Guard.keep_amount part fixed d) e
      ∙ keep_amount-other part fixed j d f

  -- The answer is the one that was recorded.
  is_allowed-eq :
      {d : Row N} {months : Option (List (Value N))} {copy : Option (Row N)} {redrawn : Bool}
      (a : Bool) {r : Guard.Outcome N}
      → some (Guard.outcome d months copy redrawn a) ≡ some r
      → r.is_allowed ≡ true
      → a ≡ true
  is_allowed-eq a e allowed = rw (ap (λ r. r.is_allowed) (some-injective _ _ e)) allowed

  -- An answer that opens a cell of a stored project.
  answer-may_edit :
      (s : Guard.Screen) (cell fixed : ℕ) (part : Bool) (copy d : Row N) (r : Guard.Outcome N)
      → loose_eq (d 34) (str "New projects") ≡ false
      → Guard.answer s cell fixed part copy d ≡ some r
      → r.is_allowed ≡ true
      → (b : Bool) × (Guard.may_edit_project s cell (Guard.keep_month b fixed d) ≡ some true)
  unfolding Guard.answer
  answer-may_edit s cell fixed part copy d r old e allowed =
      let b =
        Guard.is_accrual_row d && (Guard.has_status d "Active" && Guard.stands_in_month fixed) in
      let kept = Guard.keep_month b fixed d in
      elim (Bool-cases (Guard.is_locked part kept)) [
        | inl locked ↦ absurd (cc (is_allowed-eq false (rw (old, locked) at e) allowed))
        | inr free ↦
            let (a, e1, e2) =
              >>=-eq-some (Guard.may_edit_project s cell kept) _ (rw (old, free) at e) in
            (b, rw (is_allowed-eq a e2 allowed) at e1)
      ]

  pub weigh-may_edit :
      (s : Guard.Screen) (cell fixed : ℕ) (d : Row N) (r : Guard.Outcome N)
      → loose_eq (d 34) (str "New projects") ≡ false
      → Guard.weigh s cell fixed d ≡ some r
      → r.is_allowed ≡ true
      → (part b : Bool) × (Guard.may_edit_project s cell
            (Guard.keep_month b fixed (Guard.keep_amount part fixed d))
          ≡ some true)
  unfolding Guard.weigh
  weigh-may_edit s cell fixed d r old e allowed =
      let (key, e1, e2) = >>=-eq-some (to_string? (d 27)) _ e in
      let part = contains key "." in
      let kept = Guard.keep_amount part fixed d in
      let old' =
        subst (λ v. loose_eq v (str "New projects") ≡ false)
          (sym (keep_amount-other part fixed 34 d refl)) old in
      elim (Bool-cases (Guard.is_foreign kept)) [
        | inl foreign ↦
            absurd (cc (ap (λ r. r.is_allowed) (some-injective _ _ (rw foreign at e2)), allowed))
        | inr own ↦
            let (b, e3) = answer-may_edit s cell fixed part d kept r old' (rw own at e2) allowed in
            (part, b, e3)
      ]

  pub before_edit-weigh :
      (s : Guard.Screen) (cell : ℕ) (d : Row N) (r : Guard.Outcome N)
      → Guard.before_edit s cell d ≡ some r
      → r.is_allowed ≡ true
      → (s.is_saving ≡ false)
        × (s.is_covered ≡ false)
        × (Guard.has_status d "Closed" ≡ false)
        × ((fixed : ℕ) × (Guard.weigh s cell fixed d ≡ some r))
  unfolding Guard.before_edit
  before_edit-weigh s cell d r e allowed = elim (Bool-cases (s.is_saving || s.is_covered)) [
    | inl busy ↦ absurd (cc (is_allowed-eq false (rw busy at e) allowed))
    | inr rest ↦ elim (Bool-cases (Guard.has_status d "Closed")) [
      | inl closed ↦ absurd (cc (is_allowed-eq false (rw (rest, closed) at e) allowed))
      | inr going ↦ (ground arith, ground arith, going, (_, rw (rest, going) at e))
    ]
  ]

  -- Where the handler opens a cell of a row that is not being entered and whose status is a text, the
  -- page is at rest and the row is a forecast of a project that is neither closed nor a total.
  pub before_edit-IsEditable :
      (s : Guard.Screen) (cell : ℕ) (d : Row N) (status : String) (r : Guard.Outcome N)
      → d 26 ≡ str status
      → loose_eq (d 34) (str "New projects") ≡ false
      → Guard.before_edit s cell d ≡ some r
      → r.is_allowed ≡ true
      → IsEditable s status d
  unfolding loose_eq IsLive
  before_edit-IsEditable s cell d status r stands old e allowed =
      let (a, b, c, (fixed, e1)) = before_edit-weigh s cell d r e allowed in
      let (part, redrawn, e2) = weigh-may_edit s cell fixed d r old e1 allowed in
      let kept = Guard.keep_month redrawn fixed (Guard.keep_amount part fixed d) in
      let same = kept-other part redrawn fixed 11 d refl refl in
      let status_same = kept-other part redrawn fixed 26 d refl refl ∙ stands in
      let new_differs : Guard.has_status kept "New" ≡ true → Guard.has_status kept "Total" ≡ false =
        λ h.
          subst (λ v. loose_eq v (str "Total") ≡ false) (sym status_same)
            (new_not_total status (subst (λ v. loose_eq v (str "New") ≡ true) status_same h)) in
      let (f, t) = may_edit_project-IsLive s cell kept new_differs e2 in
      (
        a,
        b,
        subst (λ v. loose_eq v (str "Closed") ≡ false) stands c,
        subst (λ v. loose_eq v (str "Total") ≡ false) status_same t,
        subst (λ v. loose_eq v (str forecast) ≡ true) same f,
      )
