-- ===== src/Totals/Counted.antt =====
-- war/scripts/editProjects.js, `calculateTotal`: the rows of the forecasts, the accruals and the targets.
use mathlib.Core.Option.{some-injective}
use budget_app.Base.{
  ℕ, ◌≤◌, ◌<◌, ◌≡◌, refl, sym, ap, ◌∙◌, inl, inr, Bool, true, false, ◌&&◌, ◌||◌, not, String, none,
  some, List, [], ◌∷◌, Bool-cases, arith, >>=-eq-some,
}
use budget_app.Js.{Number, str, num, Row, loose_eq}
use budget_app.Page.{Effect}
use budget_app.Totals.{
  Entries, Totals, id_of, kind_of, is_counted, next_project, find_totals, add_entry, add_entries,
  set_left, subtract_fields, calculate_total,
}
use budget_app.Totals.Sums.{
  Sum, of_forecasts, of_accruals, of_targets, is_passed_over, is_of, entered, sum_from, row_of,
}
use budget_app.Totals.Added.{add_entry-sum}
use budget_app.Totals.Zero.{find_totals-IsZero, none_found-IsZero}

is_counted-is_passed_over :
    (whole id : String) → is_counted whole id ≡ not (is_passed_over whole id)
unfolding is_counted
is_counted-is_passed_over whole id = ground arith

module _ {N : Type 0} ⦃n : Number N⦄ where
  -- An entry that is counted is none that is passed over.
  counted-entered :
      (whole id : String) (d : Row N) (b : Bool)
      → (is_counted whole id && not (loose_eq (d 26) (str "Total"))) ≡ b
      → (is_passed_over whole id || loose_eq (d 26) (str "Total")) ≡ not b
  counted-entered whole id d b e =
      negated (is_passed_over whole id) (loose_eq (d 26) (str "Total")) b (
        ap (λ c. c && not (loose_eq (d 26) (str "Total")))
          (sym (is_counted-is_passed_over whole id))
        ∙ e)
    where
      negated : (p q b : Bool) → (not p && not q) ≡ b → (p || q) ≡ not b
      negated true q b e = ap not e
      negated false true b e = ap not e
      negated false false b e = ap not e

  -- Each sum is what it was before with the entered rows added.
  add_entries-sum :
      (w : Sum) (whole : String) (t t' : Totals N) (es : Entries N) (f' : Row N)
      → add_entries whole t es ≡ some t'
      → row_of w t' ≡ some f'
      → (f : Row N) × (row_of w t ≡ some f)
        × ((i : ℕ) → 12 ≤ i → i < 25 → f' i ≡ sum_from i (f i) (entered w whole es))
  unfolding add_entries next_project id_of
  add_entries-sum w whole t t' [] f' e h =
      (f', ap (row_of w) (some-injective _ _ e) ∙ h, λ i p q. refl)
  add_entries-sum w whole t t' ((key, d) ∷ es) f' e h =
      elim (Bool-cases (is_counted whole (id_of key) && not (loose_eq (d 26) (str "Total")))) [
        | inl counts ↦
            let next = next_project whole (id_of key) in
            let (kind, ek, e1) = >>=-eq-some (kind_of key) _ (rw counts at e) in
            let (t1, et, e2) = >>=-eq-some (add_entry kind d t) _ e1 in
            let (f1, h1, later) = add_entries-sum w next t1 t' es f' e2 h in
            let (f, h0, here) = add_entry-sum w key kind d t t1 f1 ek et h1 in
            let kept = counted-entered whole (id_of key) d true counts in
            let rest = entered w next es in
            (
              f,
              h0,
              λ i p q. elim (Bool-cases (is_of w key d)) [
                | inl mine ↦
                    rw (kept, mine)
                      (later i p q ∙ ap (λ v. sum_from i v rest) (rw mine at (here i p q)))
                | inr alien ↦
                    rw (kept, alien)
                      (later i p q ∙ ap (λ v. sum_from i v rest) (rw alien at (here i p q)))
              ],
            )
        | inr skips ↦
            let kept = counted-entered whole (id_of key) d false skips in
            let (f, h0, later) = add_entries-sum w whole t t' es f' (rw skips at e) h in
            (f, h0, λ i p q. rw kept (later i p q))
      ]

  set_left-row_of :
      (all_kinds : Bool) (w : Sum) (t t' : Totals N)
      → set_left all_kinds t ≡ some t'
      → row_of w t' ≡ row_of w t
  unfolding set_left
  set_left-row_of false w t t' e = ap (row_of w) (sym (some-injective _ _ e))
  set_left-row_of true w t t' e =
      let (l, el, e1) = >>=-eq-some t.left _ e in
      let (q, eq, e2) = >>=-eq-some t.targets _ e1 in
      let (a, ea, e3) = >>=-eq-some t.accruals _ e2 in
      ap (row_of w) (sym (some-injective _ _ e3)) ∙ same w (subtract_fields 13 12 q a l)
    where
      same : (w : Sum) (d : Row N) → row_of w (record t { left = some d }) ≡ row_of w t
      same of_forecasts d = refl
      same of_accruals d = refl
      same of_targets d = refl

  -- In the rows of the forecasts, the accruals and the targets, each month and the year is the sum,
  -- from zero, of that field over the entries that the row is made of, if the totals are found.
  pub calculate_total-sum_from :
      (all_kinds : Bool) (es : Entries N) (t : Totals N) (effects : List (Effect N)) (w : Sum)
      (f : Row N) (i : ℕ)
      → calculate_total all_kinds es ≡ some (t, effects)
      → row_of w t ≡ some f
      → 12 ≤ i
      → i < 25
      → f i ≡ sum_from i (num (n.of_nat 0)) (entered w "" es)
  unfolding calculate_total
  calculate_total-sum_from all_kinds es t effects w f i e h p q =
      let none_found : Totals N = record {
        forecasts = none;
        accruals = none;
        targets = none;
        left = none;
      } in
      let (t0, e0, e1) = >>=-eq-some (find_totals none_found es) _ e in
      let (t1, ea, e2) = >>=-eq-some (add_entries "" t0 es) _ e1 in
      let (t2, el, e3) = >>=-eq-some (set_left all_kinds t1) _ e2 in
      let last : t2 ≡ t = ap (λ r. r.0) (some-injective _ _ e3) in
      let h1 = sym (set_left-row_of all_kinds w t1 t2 el) ∙ (ap (row_of w) last ∙ h) in
      let (f0, h0, summed) = add_entries-sum w "" t0 t1 es f ea h1 in
      let start = find_totals-IsZero none_found t0 es e0 none_found-IsZero w f0 h0 i p q in
      summed i p q ∙ ap (λ v. sum_from i v (entered w "" es)) start
