-- ===== src/Totals/Zero.antt =====
-- war/scripts/editProjects.js, `calculateTotal`: the rows of totals before the entries are added.
use mathlib.Core.Option.{some-injective}
use budget_app.Base.{
  ℕ, zero, suc, ◌+◌, ◌≤◌, ◌<◌, ◌≡◌, sym, ap, ◌∙◌, subst, inl, inr, ◌&&◌, String, none, some, [],
  ◌∷◌, if◌then◌else◌, Bool-cases, text_eq, ltb, leb, arith, >>=-eq-some,
}
use budget_app.Constants.{forecast, accrual, quarterly_target, quarterly_lts}
use budget_app.Js.{Number, str, num, Row, put, loose_eq}
use budget_app.Totals.{Entries, Totals, kind_of, zero_fields, found, find_totals}
use budget_app.Totals.Sums.{Sum, of_forecasts, of_accruals, of_targets, row_of}

module _ {N : Type 0} ⦃n : Number N⦄ where
  zero_fields_lem :
      (count j : ℕ) (t : Row N) (i : ℕ)
      → zero_fields count j t i ≡ (if leb j i && ltb i (j + count) then num (n.of_nat 0) else t i)
  unfolding zero_fields
  zero_fields_lem zero j t i = ground arith
  zero_fields_lem (suc count) j t i =
      ground (arith, zero_fields_lem count (j + 1) (put t j (num (n.of_nat 0))) i)

  -- The rows of totals as the first loop finds them are zero.
  abbrev pub IsZero : Totals N → Type 0
  IsZero t =
      (w : Sum) (f : Row N)
      → row_of w t ≡ some f
      → (i : ℕ) → 12 ≤ i
      → i < 25
      → f i ≡ num (n.of_nat 0)

  zeroed :
      (d f : Row N)
      → some (zero_fields 13 12 d) ≡ some f
      → (i : ℕ) → 12 ≤ i
      → i < 25
      → f i ≡ num (n.of_nat 0)
  zeroed d f e i p q =
      ap (λ r. r i) (sym (some-injective _ _ e)) ∙ ground (arith, zero_fields_lem 13 12 d i)

  found-IsZero : (kind : String) (d : Row N) (t : Totals N) → IsZero t → IsZero (found kind d t)
  unfolding found
  found-IsZero kind d t h w f e i p q = elim (Bool-cases (text_eq kind forecast)) [
    | inl same ↦ at_forecasts w (rw same at e)
    | inr a ↦ elim (Bool-cases (text_eq kind accrual)) [
      | inl same ↦ at_accruals w (rw (a, same) at e)
      | inr b ↦ elim (Bool-cases (text_eq kind quarterly_target)) [
        | inl same ↦ at_targets w (rw (a, b, same) at e)
        | inr c ↦ elim (Bool-cases (text_eq kind quarterly_lts)) [
          | inl same ↦ at_left w (rw (a, b, c, same) at e)
          | inr z ↦ h w f (rw (a, b, c, z) at e) i p q
        ]
      ]
    ]
  ]
    where
      at_forecasts :
          (w : Sum)
          → row_of w (record t { forecasts = some (zero_fields 13 12 d) }) ≡ some f
          → f i ≡ num (n.of_nat 0)
      at_forecasts of_forecasts e = zeroed d f e i p q
      at_forecasts of_accruals e = h of_accruals f e i p q
      at_forecasts of_targets e = h of_targets f e i p q

      at_accruals :
          (w : Sum)
          → row_of w (record t { accruals = some (zero_fields 13 12 d) }) ≡ some f
          → f i ≡ num (n.of_nat 0)
      at_accruals of_forecasts e = h of_forecasts f e i p q
      at_accruals of_accruals e = zeroed d f e i p q
      at_accruals of_targets e = h of_targets f e i p q

      at_targets :
          (w : Sum)
          → row_of w (record t { targets = some (zero_fields 13 12 d) }) ≡ some f
          → f i ≡ num (n.of_nat 0)
      at_targets of_forecasts e = h of_forecasts f e i p q
      at_targets of_accruals e = h of_accruals f e i p q
      at_targets of_targets e = zeroed d f e i p q

      at_left :
          (w : Sum)
          → row_of w (record t { left = some (zero_fields 13 12 d) }) ≡ some f
          → f i ≡ num (n.of_nat 0)
      at_left of_forecasts e = h of_forecasts f e i p q
      at_left of_accruals e = h of_accruals f e i p q
      at_left of_targets e = h of_targets f e i p q

  pub find_totals-IsZero :
      (t t' : Totals N) (es : Entries N) → find_totals t es ≡ some t' → IsZero t → IsZero t'
  unfolding find_totals
  find_totals-IsZero t t' [] e h = subst IsZero (some-injective _ _ e) h
  find_totals-IsZero t t' ((key, d) ∷ es) e h = elim (Bool-cases (loose_eq (d 26) (str "Total"))) [
    | inl total ↦
        let (kind, ek, e1) = >>=-eq-some (kind_of key) _ (rw total at e) in
        find_totals-IsZero (found kind d t) t' es e1 (found-IsZero kind d t h)
    | inr other ↦ find_totals-IsZero t t' es (rw other at e) h
  ]

  pub none_found-IsZero :
      IsZero (record { forecasts = none; accruals = none; targets = none; left = none })
  none_found-IsZero of_forecasts f e i p q = absurd (cc e)
  none_found-IsZero of_accruals f e i p q = absurd (cc e)
  none_found-IsZero of_targets f e i p q = absurd (cc e)
