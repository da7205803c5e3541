-- ===== src/Totals/Left.antt =====
-- war/scripts/editProjects.js, `calculateTotal`: what is left over all projects.
use mathlib.Core.Option.{some-injective}
use budget_app.Base.{
  ℕ, zero, suc, ◌+◌, ◌≤◌, ◌<◌, ◌≡◌, refl, sym, ap, ◌∙◌, inl, inr, true, none, some, List, arith,
  ◌==◌, ==_iff, Bool-cases, >>=-eq-some,
}
use budget_app.Js.{Number, Value, num, Row, put, parse}
use budget_app.Page.{Effect}
use budget_app.Totals.{
  Entries, Totals, subtract_fields, find_totals, add_entries, set_left, calculate_total,
}

module _ {N : Type 0} ⦃n : Number N⦄ where
  subtract_fields-before :
      (count j : ℕ) (a b t : Row N) (i : ℕ) → i < j → subtract_fields count j a b t i ≡ t i
  unfolding subtract_fields
  subtract_fields-before zero j a b t i h = refl
  subtract_fields-before (suc count) j a b t i h =
      let t' : Row N = put t j (num (n.sub (parse (a j)) (parse (b j)))) in
      let apart : t' i ≡ t i = ground arith in
      subtract_fields-before count (j + 1) a b t' i (omega arith) ∙ apart

  subtract_fields_lem :
      (count j : ℕ) (a b t : Row N) (i : ℕ)
      → j ≤ i
      → i < j + count
      → subtract_fields count j a b t i ≡ num (n.sub (parse (a i)) (parse (b i)))
  unfolding subtract_fields
  subtract_fields_lem zero j a b t i p q = absurd (omega arith)
  subtract_fields_lem (suc count) j a b t i p q =
      let v = num (n.sub (parse (a j)) (parse (b j))) in
      elim (Bool-cases (i == j)) [
        | inl same ↦
            let at : i ≡ j = (==_iff i j).0 same in
            subtract_fields-before count (j + 1) a b (put t j v) i (omega (arith, at))
            ∙ here t v i j at
            ∙ ap (λ k. num (n.sub (parse (a k)) (parse (b k)))) (sym at)
        | inr other ↦
            subtract_fields_lem count (j + 1) a b (put t j v) i (ground arith) (omega arith)
      ]
    where
      here : (t : Row N) (v : Value N) (i j : ℕ) → i ≡ j → put t j v i ≡ v
      here t v i j at = ground arith

  -- When rows of all kinds are shown, the totals have rows of targets and accruals, and each month and
  -- the year of what is left is the target less the accrual.
  pub calculate_total-left :
      (es : Entries N) (t : Totals N) (effects : List (Effect N))
      → calculate_total true es ≡ some (t, effects)
      → (l q a : Row N) × (t.left ≡ some l)
        × (t.targets ≡ some q)
        × (t.accruals ≡ some a)
        × ((i : ℕ) → 12 ≤ i → i < 25 → l i ≡ num (n.sub (parse (q i)) (parse (a i))))
  unfolding calculate_total set_left
  calculate_total-left es t effects e =
      let none_found : Totals N = record {
        forecasts = none;
        accruals = none;
        targets = none;
        left = none;
      } in
      let (t0, _, e1) = >>=-eq-some (find_totals none_found es) _ e in
      let (t1, _, e2) = >>=-eq-some (add_entries "" t0 es) _ e1 in
      let (t2, e3, e4) = >>=-eq-some (set_left true t1) _ e2 in
      let (l, el, e5) = >>=-eq-some t1.left _ e3 in
      let (q, et, e6) = >>=-eq-some t1.targets _ e5 in
      let (a, ea, e7) = >>=-eq-some t1.accruals _ e6 in
      let same : t ≡ record t1 { left = some (subtract_fields 13 12 q a l) } =
        ap (λ r. r.0) (sym (some-injective _ _ e4)) ∙ sym (some-injective _ _ e7) in
      (
        subtract_fields 13 12 q a l,
        q,
        a,
        ap (λ r. r.left) same,
        ap (λ r. r.targets) same ∙ et,
        ap (λ r. r.accruals) same ∙ ea,
        subtract_fields_lem 13 12 q a l,
      )
