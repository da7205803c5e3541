-- ===== src/Popup/Checks/Passed.antt =====
-- war/scripts/editProjects.js, `saveAndClose`: tables that pass its checks.
use Prim.Native.String.{String}
use mathlib.Core.Option.{some-injective}
use text.Mathlib.TextLemmas.{append-ne-nil_of_right_ne-nil, cons-ne-nil}
use budget_app.Base.{
  ℕ, zero, suc, ◌≡◌, refl, sym, ap, ◌∙◌, ◌≢◌, ◌↔◌, ◌⊎◌, inl, inr, Bool, true, false, ◌||◌, Option,
  none, some, List, [], ◌∷◌, All, arith, if◌then◌else◌, Bool-cases, text_eq, text_eq_iff, concat,
  trim, >>=-eq-some,
}
use budget_app.Base.Order.{sort, has_twins, has_twins-sort_iff, Distinct, All-sort}
use budget_app.Base.Text.Trim.{trim-key}
use budget_app.Js.{
  Number, Value, str, num, bool, undefined, Row, put, to_string?, trim?, loose_eq, is_blank,
}
use budget_app.Popup.Checks.{
  note, labels, row_error, prepend, scan, owner_brands, twins, duplicates,
}

-- A key is its own trimmed form and not empty.
abbrev IsKey : String → Type 0
IsKey k = (trim k ≡ k) × (k ≢ "")

concat-IsKey :
    {o b : String} (s t : String) → trim s ≡ o → trim t ≡ b → IsKey (concat o (concat ":" b))
concat-IsKey s t p q = rw (← p, ← q) (trim-key s t)

twins_eq_nil : (ks : List String) → All IsKey ks → (twins ks ≡ []) ↔ (has_twins ks ≡ false)
unfolding twins has_twins
twins_eq_nil [] h = (λ _. refl, λ _. refl)
twins_eq_nil (k ∷ []) h = (λ _. refl, λ _. refl)
twins_eq_nil (k ∷ l ∷ ks) ((t, ne), ((t', ne'), h)) =
    let ih = twins_eq_nil (l ∷ ks) ((t', ne'), h) in
    rw (t, t') (ground (arith, ih, text_eq_iff k "", text_eq_iff l "", text_eq_iff k l))

module _ {N : Type 0} ⦃n : Number N⦄ where
  trim?-eq-some : (v : Value N) {o : String} → trim? v ≡ some o → (s : String) × (trim s ≡ o)
  trim?-eq-some undefined e = cc
  trim?-eq-some (str s) e = (s, some-injective _ _ e)
  trim?-eq-some (num x) e = cc
  trim?-eq-some (bool b) e = cc

  owner_brands-IsKey :
      (ds : List (Row N)) (ks : List String) → owner_brands ds ≡ some ks → All IsKey ks
  unfolding owner_brands
  owner_brands-IsKey [] ks e = rw (← some-injective _ _ e) tt
  owner_brands-IsKey (d ∷ ds) ks e =
      elim (Bool-cases (loose_eq (d 7) (str "") || loose_eq (d 1) (str ""))) [
        | inl stop ↦ rw (← some-injective _ _ (rw stop at e)) tt
        | inr more ↦
            let (o, eo, e1) = >>=-eq-some (trim? (d 7)) _ (rw more at e) in
            let (b, eb, e2) = >>=-eq-some (trim? (d 1)) _ e1 in
            let (rest, er, e3) = >>=-eq-some (owner_brands ds) _ e2 in
            let (s, es) = trim?-eq-some (d 7) eo in
            let (t, et) = trim?-eq-some (d 1) eb in
            rw (← some-injective _ _ e3) (concat-IsKey s t es et, owner_brands-IsKey ds rest er)
      ]

  -- If the owners and brands up to the first row that lacks one are texts, `ks` being their
  -- trimmed pairs, the check reports nothing exactly when no pair occurs twice.
  pub duplicates-eq-nil_iff :
      (ds : List (Row N)) (ks : List String)
      → owner_brands ds ≡ some ks
      → (duplicates ds ≡ some []) ↔ Distinct ks
  unfolding duplicates
  duplicates-eq-nil_iff ds ks e =
      let keys = All-sort IsKey ks (owner_brands-IsKey ds ks e) in
      let (to, from) = twins_eq_nil (sort ks) keys in
      let (to', from') = has_twins-sort_iff ks in
      rw e (λ h. to' (to (some-injective _ _ h)), λ h. ap some (from (from' h)))

-- A label that is noted makes the message non-empty.
note-eq-nil :
    (b : Bool) (label err : String) → label ≢ "" → note b label err ≡ "" → (b ≡ false) × (err ≡ "")
note-eq-nil false label err h e = (refl, e)
note-eq-nil true label err h e = absurd (append-ne-nil_of_right_ne-nil _ h e)

labels-eq-nil : (i b t : Bool) → labels i b t ≡ "" → (i ≡ false) × (b ≡ false) × (t ≡ false)
unfolding labels
labels-eq-nil i b t e =
    let (no_t, f1) = note-eq-nil t "Total " _ (cons-ne-nil _ _) e in
    let (no_b, f2) = note-eq-nil b "Brand " _ (cons-ne-nil _ _) f1 in
    let (no_i, f3) = note-eq-nil i "gMemori Id " "" (cons-ne-nil _ _) f2 in (no_i, no_b, no_t)

or-eq-false : (a b : Bool) → (a || b) ≡ false → (a ≡ false) × (b ≡ false)
or-eq-false a b e = ground arith

ne_of_text_eq : (s t : String) → text_eq s t ≡ false → s ≢ t
ne_of_text_eq s t e = ground (arith, text_eq_iff s t)

amount_of_tests :
    (t : String) (u : Bool)
    → (text_eq (trim t) "" || u || text_eq t "0" || text_eq t "0.0") ≡ false
    → (trim t ≢ "") × (t ≢ "0") × (t ≢ "0.0")
amount_of_tests t u e =
    ground (arith, text_eq_iff (trim t) "", text_eq_iff t "0", text_eq_iff t "0.0")

module _ {N : Type 0} ⦃n : Number N⦄ where
  -- A row whose id, brand and amount are filled in, and whose amount is not zero.
  pub record IsComplete (d : Row N) : Type 0 where
    pub id : (s : String) × (to_string? (d 5) ≡ some s) × (trim s ≢ "")
    pub brand : (s : String) × (d 1 ≡ str s) × (trim s ≢ "")
    pub amount :
        (s : String) × (to_string? (d 3) ≡ some s) × (trim s ≢ "") × (s ≢ "0") × (s ≢ "0.0")

  trim?-inverse :
      (v : Value N) {o : String} → trim? v ≡ some o → (s : String) × (v ≡ str s) × (trim s ≡ o)
  trim?-inverse undefined e = cc
  trim?-inverse (str s) e = (s, refl, some-injective _ _ e)
  trim?-inverse (num x) e = cc
  trim?-inverse (bool b) e = cc

  row_error-IsComplete : (d : Row N) → row_error d ≡ some "" → IsComplete d
  unfolding row_error
  row_error-IsComplete d e =
      let (i, ei, e1) = >>=-eq-some (to_string? (d 5)) _ e in
      let (b, eb, e2) = >>=-eq-some (trim? (d 1)) _ e1 in
      let (t, et, e3) = >>=-eq-some (to_string? (d 3)) _ e2 in
      let (s, es, sb) = trim?-inverse (d 1) eb in
      let (no_i, no_b, no_t) = labels-eq-nil _ _ _ (some-injective _ _ e3) in
      let (i1, i2) = or-eq-false _ _ no_i in
      let (b1, b2) = or-eq-false _ _ no_b in
      let (inked, not_zero, not_point) = amount_of_tests t _ no_t in
      record {
        id = (i, ei, ne_of_text_eq _ _ i1);
        brand = (s, es, λ f. ne_of_text_eq _ _ b1 (sym sb ∙ f));
        amount = (t, et, inked, not_zero, not_point);
      }

  -- Every row before the first one without a project name is complete.
  abbrev pub CompleteUpTo : List (Row N) → Type 0
  CompleteUpTo [] = Unit
  CompleteUpTo (d ∷ ds) = (is_blank (d 4) ≡ true) ⊎ (IsComplete d × CompleteUpTo ds)

  -- How many rows stand before the first one without a project name.
  pub named : List (Row N) → ℕ
  named [] = 0
  named (d ∷ ds) = let more = suc (named ds) in if is_blank (d 4) then 0 else more

  -- The first `i` rows get the owner.
  pub own : ℕ → Value N → List (Row N) → List (Row N)
  own zero owner ds = ds
  own (suc i) owner [] = []
  own (suc i) owner (d ∷ ds) = put d 7 owner ∷ own i owner ds

  prepend-eq-some :
      (d : Row N) (o : Option (ℕ × String × List (Row N))) {i : ℕ} {e : String} {ds : List (Row N)}
      → prepend d o ≡ some (i, e, ds)
      → (j : ℕ) × (rest : List (Row N)) × (o ≡ some (j, e, rest)) × (i ≡ suc j) × (ds ≡ d ∷ rest)
  prepend-eq-some d none h = cc
  prepend-eq-some d (some (j, e, rest)) h = (j, rest, ground arith, ground arith, ground arith)

  scan-parts :
      {i j : ℕ} {e f : String} {ds es : List (Row N)}
      → ◌≡◌ {A = Option (ℕ × String × List (Row N))} (some (i, e, ds)) (some (j, f, es))
      → (i ≡ j) × (e ≡ f) × (ds ≡ es)
  scan-parts h = ground arith

  IsComplete-unowned : {d : Row N} (v : Value N) → IsComplete (put d 7 v) → IsComplete d
  IsComplete-unowned v c = record { id = c.id; brand = c.brand; amount = c.amount }

  -- A loop that ends with no error has passed complete rows only, up to the first without a
  -- project name, stops there, and has changed nothing but the owners of the rows it passed.
  pub scan_sound :
      (owner : Value N) (ds : List (Row N)) {i : ℕ} {ds' : List (Row N)}
      → scan owner ds ≡ some (i, "", ds')
      → CompleteUpTo ds × (i ≡ named ds) × (ds' ≡ own i owner ds)
  unfolding scan named own
  scan_sound owner [] h = let (ei, _, eds) = scan-parts h in (tt, sym ei, rw (← ei) (sym eds))
  scan_sound owner (d ∷ ds) h = elim (Bool-cases (is_blank (d 4))) [
    | inl stop ↦
        let (ei, _, eds) = scan-parts (rw stop at h) in
        (inl stop, rw stop (sym ei), rw (← ei) (sym eds))
    | inr more ↦
        let (err, eerr, h2) = >>=-eq-some (row_error (put d 7 owner)) _ (rw more at h) in
        elim (Bool-cases (text_eq err "")) [
          | inl clean ↦
              let (j, rest, es, ei, eds) = prepend-eq-some _ (scan owner ds) (rw clean at h2) in
              let (complete, count, owned) = scan_sound owner ds es in
              let whole =
                row_error-IsComplete (put d 7 owner)
                  (eerr ∙ ap some ((text_eq_iff err "").0 clean)) in
              (
                inr (IsComplete-unowned owner whole, complete),
                rw more (ei ∙ ap suc count),
                rw (eds, ei) (ap (◌∷◌ (put d 7 owner)) owned),
              )
          | inr bad ↦
              let (_, e, _) = scan-parts (rw bad at h2) in absurd (ne_of_text_eq err "" bad e)
        ]
  ]
