-- ===== src/Submit/Ready.antt =====
-- war/scripts/editProjects.js, `submitProjects`: rows that may be sent.
use mathlib.Core.Option.{some-injective}
use budget_app.Base.{
  ℕ, zero, suc, ◌+◌, ◌*◌, ◌≡◌, refl, sym, ap, ap₂, ◌∙◌, ◌≢◌, ◌↔◌, ◌⊎◌, inl, inr, Bool, true, false,
  ◌&&◌, String, Option, none, some, List, [], ◌∷◌, ◌++◌, map, All, arith, ◌==◌, if◌then◌else◌,
  Bool-cases, text_eq_iff, contains_fold, trim, >>=-eq-some,
}
use budget_app.Js.{Number, Value, str, bool, to_string?, loose_eq}
use budget_app.Page.{Item}
use budget_app.Months.Total.{fill_months-outside}
use budget_app.Submit.{
  Findings, is_missing, same_po, repeated_po, fill_amounts, is_short, with_name, row_verdict,
  settled, check_rows,
}

code-eq-zero :
    (a b : Bool) (k : ℕ)
    → ((if a then 2 else 0) + (if b then 4 else 0) + 5 * k ≡ 0)
    → (a ≡ false) × (b ≡ false) × (k ≡ 0)
code-eq-zero a b k h = ground arith

verdict-parts :
    {x y m : Bool} {k : ℕ}
    → ◌≡◌ {A = Option (Bool × Bool × ℕ)} (some (x, y, k)) (some (false, m, 0))
    → (x ≡ false) × (k ≡ 0)
verdict-parts e = ground arith

module _ {N : Type 0} ⦃n : Number N⦄ where
  -- The value is not "undefined" and its text has a character that is no white space.
  pub record HasText (v : Value N) : Type 0 where
    pub defined : loose_eq v (str "undefined") ≡ false
    pub text : String
    pub shown : to_string? v ≡ some text
    pub inked : trim text ≢ ""

  is_missing-HasText : (v : Value N) → is_missing v ≡ some false → HasText v
  unfolding is_missing
  is_missing-HasText v e = elim (Bool-cases (loose_eq v (str "undefined"))) [
    | inl u ↦ absurd (no_true (rw u at e))
    | inr d ↦
        let (s, es, e1) = >>=-eq-some (to_string? v) _ (rw d at e) in
        record {
          defined = d;
          text = s;
          shown = es;
          inked = λ blank. no_true (ap some (sym ((text_eq_iff _ _).1 blank)) ∙ e1);
        }
  ]
    where
      no_true : ◌≡◌ {A = Option Bool} (some true) (some false) → ⊥
      no_true h = cc

  HasText-is_missing : (v : Value N) → HasText v → is_missing v ≡ some false
  unfolding is_missing
  HasText-is_missing v h =
      rw (h.defined, h.shown) (ap some (ground (arith, text_eq_iff (trim h.text) "", h.inked)))

  -- The PO number is absent, or none of the earlier rows has it.
  abbrev pub IsFresh : List (Value N) → Value N → Type 0
  IsFresh earlier po =
      (loose_eq po (str "undefined") ≡ true)
      ⊎ (loose_eq po (str "") ≡ true)
      ⊎ All (λ v. loose_eq v po ≡ false) earlier

  abbrev pub po_of : Item N → Value N
  po_of d = d.cells 8

  same_po-eq-zero_iff :
      (ds : List (Item N)) (po : Value N)
      → (same_po ds po ≡ 0) ↔ All (λ v. loose_eq v po ≡ false) (map po_of ds)
  unfolding same_po
  same_po-eq-zero_iff [] po = (λ _. tt, λ _. refl)
  same_po-eq-zero_iff (d ∷ ds) po = elim (Bool-cases (loose_eq (d.cells 8) po)) [
    | inl e ↦ rw e (λ h. absurd (omega arith), λ h. cc (h.0))
    | inr e ↦ rw e (
        let (to, from) = same_po-eq-zero_iff ds po in
        (λ h. (refl, to (omega arith)), λ h. omega (arith, from h.1)))
  ]

  repeated_po-eq-zero_iff :
      (ds : List (Item N)) (po : Value N) → (repeated_po ds po ≡ 0) ↔ IsFresh (map po_of ds) po
  unfolding repeated_po
  repeated_po-eq-zero_iff ds po = elim (Bool-cases (loose_eq po (str "undefined"))) [
    | inl u ↦ rw u (λ _. inl refl, λ _. refl)
    | inr d ↦ elim (Bool-cases (loose_eq po (str ""))) [
      | inl b ↦ rw (d, b) (λ _. inr (inl refl), λ _. refl)
      | inr f ↦
          rw (d, f)
            (let (to, from) = same_po-eq-zero_iff ds po in
              (
                λ h. inr (inr (to h)),
                λ h. elim h [ inl e ↦ cc | inr (inl e) ↦ cc | inr (inr a) ↦ from a ],
              ))
    ]
  ]

  -- A row that may be sent after rows with the PO numbers `earlier`.
  pub record IsReady (earlier : List (Value N)) (d : Item N) : Type 0 where
    pub name : HasText (d.cells 2)
    pub brand : HasText (d.cells 6)
    pub fresh : IsFresh earlier (d.cells 8)
    pub divided :
        (contains_fold brand.text "smart wbs" && loose_eq (d.cells 37) (bool false)) ≡ false

  row_verdict-IsReady :
      (ds : List (Item N)) (d : Item N) {m : Bool}
      → row_verdict ds d ≡ some (false, m, 0)
      → IsReady (map po_of ds) d
  unfolding row_verdict
  row_verdict-IsReady ds d e =
      let (a, ea, e1) = >>=-eq-some (is_missing (d.cells 2)) _ e in
      let (b, eb, e2) = >>=-eq-some (is_missing (d.cells 6)) _ e1 in
      let (s, es, e3) = >>=-eq-some (to_string? (d.cells 6)) _ e2 in
      let (whole, none_lacking) = verdict-parts e3 in
      let (named, branded, fresh) = code-eq-zero a b _ none_lacking in
      let h = is_missing-HasText (d.cells 6) (eb ∙ ap some branded) in
      let same : h.text ≡ s = some-injective _ _ (sym h.shown ∙ es) in
      record {
        name = is_missing-HasText (d.cells 2) (ea ∙ ap some named);
        brand = record {
          defined = h.defined;
          text = s;
          shown = es;
          inked = λ blank. h.inked (ap trim same ∙ blank);
        };
        fresh = (repeated_po-eq-zero_iff ds (d.cells 8)).0 fresh;
        divided = whole;
      }

  pub IsReady-row_verdict :
      (ds : List (Item N)) (d : Item N)
      → IsReady (map po_of ds) d
      → (m : Bool) × (row_verdict ds d ≡ some (false, m, 0))
  unfolding row_verdict
  IsReady-row_verdict ds d r = (
    contains_fold r.brand.text "smart wbs" && loose_eq (d.cells 37) (bool true),
    rw (
      HasText-is_missing _ r.name,
      HasText-is_missing _ r.brand,
      r.brand.shown,
      r.divided,
      (repeated_po-eq-zero_iff ds (d.cells 8)).1 r.fresh,
    ),
  )

  settled-po : (m : Bool) (d : Item N) → po_of (settled m d) ≡ po_of d
  unfolding settled fill_amounts
  settled-po false d = refl
  settled-po true d = fill_months-outside 12 12 d.cells 8 (inl (omega arith))

  -- The next `left` rows exist and each may be sent after those before it.
  abbrev pub ReadyRows : ℕ → List (Value N) → List (Item N) → Type 0
  ReadyRows zero earlier ds = Unit
  ReadyRows (suc left) earlier [] = ⊥
  ReadyRows (suc left) earlier (d ∷ ds) =
      IsReady earlier d × ReadyRows left (earlier ++ (d.cells 8 ∷ [])) ds

  flagged_conflict : {o : Option (Value N)} {v : Value N} → some v ≡ o → o ≡ none → ⊥
  flagged_conflict p q = cc

  pub pos_append :
      (ds : List (Item N)) (m : Bool) (d : Item N)
      → map po_of (ds ++ (settled m d ∷ [])) ≡ map po_of ds ++ (d.cells 8 ∷ [])
  pos_append [] m d = ap (λ v. v ∷ []) (settled-po m d)
  pos_append (x ∷ ds) m d = ap (◌∷◌ (x.cells 8)) (pos_append ds m d)

  pub check_rows-ReadyRows :
      (left i : ℕ) (ds : List (Item N)) (msg : String) (rest : List (Item N)) {f : Findings N}
      → check_rows left i ds msg rest ≡ some f
      → f.err ≡ 0
      → f.flagged ≡ none
      → ReadyRows left (map po_of ds) rest
  unfolding check_rows
  check_rows-ReadyRows zero i ds msg rest e clean whole = tt
  check_rows-ReadyRows (suc left) i ds msg [] e clean whole = cc
  check_rows-ReadyRows (suc left) i ds msg (d ∷ rest) e clean whole =
      let ((undivided, multi, code), ev, e1) = >>=-eq-some (row_verdict ds d) _ e in
      elim (Bool-cases undivided) [
        | inl u ↦
            absurd (flagged_conflict (ap (λ g. g.flagged) (some-injective _ _ (rw u at e1))) whole)
        | inr u ↦ elim (Bool-cases (code == 0)) [
          | inl z ↦
              let zero_code : code ≡ 0 = ground arith in
              let msg' =
                if multi && is_short (settled multi d) then with_name msg (d.cells 2) else msg in
              let (g, eg, e2) =
                >>=-eq-some (check_rows left (i + 1) (ds ++ (settled multi d ∷ [])) msg' rest) _
                  (rw (u, z) at e1) in
              let same = some-injective _ _ e2 in
              let later =
                check_rows-ReadyRows left (i + 1) (ds ++ (settled multi d ∷ [])) msg' rest {f = g}
                  eg (ap (λ r. r.err) same ∙ clean) (ap (λ r. r.flagged) same ∙ whole) in
              (
                row_verdict-IsReady ds d (ev ∙ ap₂ (λ x k. some (x, multi, k)) u zero_code),
                rw (pos_append ds multi d) at later,
              )
          | inr nz ↦
              let same = ap (λ g. g.err) (some-injective _ _ (rw (u, nz) at e1)) in
              absurd (ground arith)
        ]
      ]
