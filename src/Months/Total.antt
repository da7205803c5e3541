-- ===== src/Months/Total.antt =====
-- war/scripts/editProjects.js: what the loops over the months read and write.
use budget_app.Base.{
  ℕ, zero, suc, ◌+◌, ◌<◌, ◌≤◌, ◌≡◌, refl, ap, ◌∙◌, ◌⊎◌, inl, inr, arith, if◌then◌else◌, ◌==◌, sym,
  ==_iff, false, Bool-cases,
}
use budget_app.Js.{Number, Value, Row, num, put, is_blank, parse}
use budget_app.Months.{fill_months, sum_months, year_total, retotal}

module _ {N : Type 0} ⦃n : Number N⦄ where
  -- The loop leaves every other field.
  pub fill_months-outside :
      (count j : ℕ) (d : Row N) (i : ℕ) → (i < j) ⊎ (j + count ≤ i) → fill_months count j d i ≡ d i
  unfolding fill_months
  fill_months-outside zero j d i h = refl
  fill_months-outside (suc count) j d i h =
      let e : Row N = if is_blank (d j) then put d j (num (n.of_nat 0)) else d in
      fill_months-outside count (j + 1) e i (omega arith) ∙ ground arith

  -- The sum reads nothing but its fields.
  pub sum_months-congr :
      (count j : ℕ) (acc : N) (d e : Row N)
      → ((i : ℕ) → j ≤ i → i < j + count → d i ≡ e i)
      → sum_months count j acc d ≡ sum_months count j acc e
  unfolding sum_months
  sum_months-congr zero j acc d e h = refl
  sum_months-congr (suc count) j acc d e h = rw (h j (omega arith) (omega arith)) (
      sum_months-congr count (j + 1) (n.add (parse (num acc)) (parse (e j))) d e
        (λ i p q. h i (omega arith) (omega arith)))

  -- The total of a row is up to date.
  abbrev pub IsTotalled : Row N → Type 0
  IsTotalled d = d 24 ≡ num (parse (num (year_total d)))

  put-month : (e : Row N) (v : Value N) (i : ℕ) → i < 24 → put e 24 v i ≡ e i
  put-month e v i h = ground arith

  put-outside : (e : Row N) (v : Value N) (i : ℕ) → (i < 12) ⊎ (25 ≤ i) → put e 24 v i ≡ e i
  put-outside e v i h = ground arith

  put-total : (e : Row N) (v : Value N) → put e 24 v 24 ≡ v
  put-total e v = refl

  -- Recomputing the total makes it the sum of the months as they stand.
  pub retotal-IsTotalled : (d : Row N) → IsTotalled (retotal d)
  unfolding retotal year_total
  retotal-IsTotalled d =
      let e = fill_months 12 12 d in
      let total = num (parse (num (year_total e))) in
      ap (λ x. num (parse (num x)))
        (sum_months-congr 12 12 (n.of_nat 0) e (put e 24 total)
          (λ i p q. sym (put-month e total i q)))

  -- Recomputing the total leaves every field but the months and the total.
  pub retotal-outside : (d : Row N) (i : ℕ) → (i < 12) ⊎ (25 ≤ i) → retotal d i ≡ d i
  unfolding retotal
  retotal-outside d i h =
      let e = fill_months 12 12 d in
      put-outside e (num (parse (num (year_total e)))) i h ∙ fill_months-outside 12 12 d i (far h)
    where
      far : {i : ℕ} → (i < 12) ⊎ (25 ≤ i) → (i < 12) ⊎ (24 ≤ i)
      far h = omega arith

  -- A month that is not blank stays.
  pub fill_months-kept :
      (count j : ℕ) (d : Row N) (i : ℕ) → is_blank (d i) ≡ false → fill_months count j d i ≡ d i
  unfolding fill_months
  fill_months-kept zero j d i h = refl
  fill_months-kept (suc count) j d i h = elim (Bool-cases (is_blank (d j))) [
    | inl b ↦
        let e = put d j (num (n.of_nat 0)) in
        let same : e i ≡ d i = ground arith in
        rw b (fill_months-kept count (j + 1) e i (ap is_blank same ∙ h) ∙ same)
    | inr f ↦ rw f (fill_months-kept count (j + 1) d i h)
  ]

  pub retotal-kept : (d : Row N) (i : ℕ) → i < 24 → is_blank (d i) ≡ false → retotal d i ≡ d i
  unfolding retotal
  retotal-kept d i h k =
      let e = fill_months 12 12 d in
      put-month e (num (parse (num (year_total e)))) i h ∙ fill_months-kept 12 12 d i k

  -- A field as the loop leaves it.
  abbrev pub filled : Value N → Value N
  filled v = if is_blank v then num (n.of_nat 0) else v

  pub fill_months-within :
      (count j : ℕ) (d : Row N) (i : ℕ)
      → j ≤ i
      → i < j + count
      → fill_months count j d i ≡ filled (d i)
  unfolding fill_months
  fill_months-within zero j d i p q = absurd (omega arith)
  fill_months-within (suc count) j d i p q =
      let e : Row N = if is_blank (d j) then put d j (num (n.of_nat 0)) else d in
      elim (Bool-cases (i == j)) [
        | inl same ↦
            let at : i ≡ j = (==_iff i j).0 same in
            fill_months-outside count (j + 1) e i (inl (omega (arith, at))) ∙ here d i j at
        | inr other ↦
            let apart : e i ≡ d i = ground arith in
            fill_months-within count (j + 1) e i (ground arith) (omega arith) ∙ ap filled apart
      ]
    where
      here :
          (d : Row N) (i j : ℕ)
          → i ≡ j
          → (if is_blank (d j) then put d j (num (n.of_nat 0)) else d) i ≡ filled (d i)
      here d i j at = rw at (ground arith)

  -- A month as recomputing the total leaves it.
  pub retotal-within : (d : Row N) (i : ℕ) → 12 ≤ i → i < 24 → retotal d i ≡ filled (d i)
  unfolding retotal
  retotal-within d i p q =
      let e = fill_months 12 12 d in
      put-month e (num (parse (num (year_total e)))) i q ∙ fill_months-within 12 12 d i p q
