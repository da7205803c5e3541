-- ===== src/Totals/Added.antt =====
-- war/scripts/editProjects.js, `calculateTotal`: what one entry adds to a row of totals.
use mathlib.Core.Option.{some-injective}
use budget_app.Base.{
  ℕ, zero, suc, ◌+◌, ◌≤◌, ◌<◌, ◌≡◌, refl, sym, ap, ◌∙◌, subst, inl, inr, Bool, true, false, ◌&&◌,
  not, String, Option, none, some, get_elem?, if◌then◌else◌, Bool-cases, Option-cases, text_eq,
  text_eq_iff, split, ltb, leb, arith, >>=-eq-some,
}
use budget_app.Constants.{forecast, accrual, quarterly_target}
use budget_app.Js.{Number, str, num, Row, put, loose_eq, parse}
use budget_app.Totals.{Totals, kind_of, add_fields, add_entry}
use budget_app.Totals.Sums.{Sum, of_forecasts, of_accruals, of_targets, belongs, is_of, row_of}

other_kind :
    (kind a b : String) → text_eq kind a ≡ true → text_eq a b ≡ false → text_eq kind b ≡ false
other_kind kind a b e f = subst (λ k. text_eq k b ≡ false) (sym ((text_eq_iff kind a).0 e)) f

module _ {N : Type 0} ⦃n : Number N⦄ where
  add_fields_lem :
      (count j : ℕ) (d t : Row N) (i : ℕ)
      → add_fields count j d t i
        ≡ (if leb j i && ltb i (j + count) then num (n.add (parse (t i)) (parse (d i))) else t i)
  unfolding add_fields
  add_fields_lem zero j d t i = ground arith
  add_fields_lem (suc count) j d t i =
      ground (
        arith,
        add_fields_lem count (j + 1) d (put t j (num (n.add (parse (t j)) (parse (d j))))) i,
      )

  -- A row of totals after an entry.
  abbrev add_to : Bool → Row N → Option (Row N) → Option (Row N)
  add_to false d o = o
  add_to true d none = none
  add_to true d (some f) = some (add_fields 13 12 d f)

  -- The four cases of an entry.
  data Added (kind : String) (d : Row N) (t t' : Totals N) : Type 0 where
    to_forecasts :
        (f : Row N)
        → text_eq kind "Forecast" ≡ true
        → t.forecasts ≡ some f
        → t' ≡ record t { forecasts = some (add_fields 13 12 d f) }
        → Added kind d t t'
    to_accruals :
        (f : Row N)
        → text_eq kind "Accrual" ≡ true
        → loose_eq (d 26) (str "New") ≡ false
        → t.accruals ≡ some f
        → t' ≡ record t { accruals = some (add_fields 13 12 d f) }
        → Added kind d t t'
    to_targets :
        (f : Row N)
        → text_eq kind "Quarterly Target" ≡ true
        → t.targets ≡ some f
        → t' ≡ record t { targets = some (add_fields 13 12 d f) }
        → Added kind d t t'
    to_none :
        text_eq kind "Forecast" ≡ false
        → (text_eq kind "Accrual" && not (loose_eq (d 26) (str "New"))) ≡ false
        → text_eq kind "Quarterly Target" ≡ false
        → t' ≡ t
        → Added kind d t t'

  add_entry-Added :
      (kind : String) (d : Row N) (t t' : Totals N)
      → add_entry kind d t ≡ some t'
      → Added kind d t t'
  unfolding add_entry
  add_entry-Added kind d t t' e = elim (Bool-cases (text_eq kind forecast)) [
    | inl same ↦
        let (f, ef, e1) = >>=-eq-some t.forecasts _ (rw same at e) in
        to_forecasts f same ef (sym (some-injective _ _ e1))
    | inr other ↦ elim (Bool-cases (text_eq kind accrual && not (loose_eq (d 26) (str "New")))) [
      | inl spent ↦
          let (f, ef, e1) = >>=-eq-some t.accruals _ (rw (other, spent) at e) in
          to_accruals f (ground arith) (ground arith) ef (sym (some-injective _ _ e1))
      | inr unspent ↦ elim (Bool-cases (text_eq kind quarterly_target)) [
        | inl aimed ↦
            let (f, ef, e1) = >>=-eq-some t.targets _ (rw (other, unspent, aimed) at e) in
            to_targets f aimed ef (sym (some-injective _ _ e1))
        | inr neither ↦
            to_none other unspent neither
              (sym (some-injective _ _ (rw (other, unspent, neither) at e)))
      ]
    ]
  ]

  Added-row_of :
      (w : Sum) (kind : String) (d : Row N) (t t' : Totals N)
      → Added kind d t t'
      → row_of w t' ≡ add_to (belongs w kind d) d (row_of w t)
  Added-row_of of_forecasts kind d t t' (to_forecasts f k ef e) = rw (k, ef, e) refl
  Added-row_of of_forecasts kind d t t' (to_accruals f k s ef e) =
      rw (other_kind kind "Accrual" "Forecast" k refl, e) refl
  Added-row_of of_forecasts kind d t t' (to_targets f k ef e) =
      rw (other_kind kind "Quarterly Target" "Forecast" k refl, e) refl
  Added-row_of of_forecasts kind d t t' (to_none a b c e) = rw (a, e) refl
  Added-row_of of_accruals kind d t t' (to_forecasts f k ef e) =
      rw (other_kind kind "Forecast" "Accrual" k refl, e) refl
  Added-row_of of_accruals kind d t t' (to_accruals f k s ef e) = rw (k, s, ef, e) refl
  Added-row_of of_accruals kind d t t' (to_targets f k ef e) =
      rw (other_kind kind "Quarterly Target" "Accrual" k refl, e) refl
  Added-row_of of_accruals kind d t t' (to_none a b c e) = rw (b, e) refl
  Added-row_of of_targets kind d t t' (to_forecasts f k ef e) =
      rw (other_kind kind "Forecast" "Quarterly Target" k refl, e) refl
  Added-row_of of_targets kind d t t' (to_accruals f k s ef e) =
      rw (other_kind kind "Accrual" "Quarterly Target" k refl, e) refl
  Added-row_of of_targets kind d t t' (to_targets f k ef e) = rw (k, ef, e) refl
  Added-row_of of_targets kind d t t' (to_none a b c e) = rw (c, e) refl

  add_to-some :
      (b : Bool) (d f' : Row N) (o : Option (Row N))
      → add_to b d o ≡ some f'
      → (f : Row N) × (o ≡ some f)
        × ((i : ℕ)
            → 12 ≤ i
            → i < 25
            → f' i ≡ (if b then num (n.add (parse (f i)) (parse (d i))) else f i))
  add_to-some false d f' o e = (f', e, λ i p q. refl)
  add_to-some true d f' none e = cc
  add_to-some true d f' (some f) e = (
    f,
    refl,
    λ i p q.
        ap (λ r. r i) (sym (some-injective _ _ e)) ∙ ground (arith, add_fields_lem 13 12 d f i),
  )

  kind_of-is_of :
      (w : Sum) (key kind : String) (d : Row N)
      → kind_of key ≡ some kind
      → is_of w key d ≡ belongs w kind d
  unfolding kind_of
  kind_of-is_of w key kind d e = elim (Option-cases (get_elem? (split b':' key) 1)) [
    | inl absent ↦ absurd (cc (rw (kind_of, absent) at e))
    | inr (k, found_part) ↦
        rw (is_of, found_part)
          (ap (λ s. belongs w s d) (some-injective _ _ (rw (kind_of, found_part) at e)))
  ]

  -- The entry's amounts in a sum that it is added to, and the sum before.
  pub add_entry-sum :
      (w : Sum) (key kind : String) (d : Row N) (t t' : Totals N) (f' : Row N)
      → kind_of key ≡ some kind
      → add_entry kind d t ≡ some t'
      → row_of w t' ≡ some f'
      → (f : Row N) × (row_of w t ≡ some f)
        × ((i : ℕ)
            → 12 ≤ i
            → i < 25
            → f' i ≡ (if is_of w key d then num (n.add (parse (f i)) (parse (d i))) else f i))
  add_entry-sum w key kind d t t' f' ek e h = rw (kind_of-is_of w key kind d ek) (
      add_to-some (belongs w kind d) d f' (row_of w t)
        (sym (Added-row_of w kind d t t' (add_entry-Added kind d t t' e)) ∙ h))
