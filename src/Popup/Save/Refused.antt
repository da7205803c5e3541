-- ===== src/Popup/Save/Refused.antt =====
-- war/scripts/editProjects.js, `saveAndClose`: the runs that refuse.
use mathlib.Core.Option.{some-injective}
use budget_app.Base.{
  ℕ, ◌≡◌, refl, sym, ap, inl, inr, Bool, String, some, List, [], ◌∷◌, All, arith, Option-cases,
  >>=-eq-some,
}
use budget_app.Js.{Number, Value}
use budget_app.Page.{Item, Effect, alert}
use budget_app.Popup.Rows.{Popup}
use budget_app.Popup.Checks.{scan, fill_names, unassigned, duplicates}
use budget_app.Popup.Save.{refusal, first_name, brand_alerts, twin_alerts, accept, save_and_close}
use budget_app.Popup.Save.Accepted.{not_hide, tail-eq}

module _ {N : Type 0} ⦃n : Number N⦄ where
  abbrev pub IsAlert : Effect N → Type 0
  IsAlert e = (text : String) × (e ≡ alert text)

  accept-eq-refused :
      (month : ℕ) (dg : Bool) (cost : Value N) (grid : List (Item N)) (p p' : Popup N)
      (ks : List String) {text : String} {rest : List (Effect N)}
      → accept month dg cost grid p ks ≡ (p', alert text ∷ rest)
      → (p' ≡ p) × All IsAlert rest
  unfolding accept brand_alerts twin_alerts
  accept-eq-refused month dg cost grid p p' [] e = elim (Option-cases (unassigned p.users p.rows)) [
    | inl found ↦ absurd (not_hide (ap (λ t. t.1) (sym (rw (found, accept) at e))))
    | inr (d, found) ↦
        let e' = rw (found, accept) at e in (ground arith, rw (tail-eq (ap (λ t. t.1) e')) tt)
  ]
  accept-eq-refused month dg cost grid p p' (k ∷ ks) e =
      elim (Option-cases (unassigned p.users p.rows)) [
        | inl found ↦
            let e' = rw (found, accept) at e in (ground arith, rw (tail-eq (ap (λ t. t.1) e')) tt)
        | inr (d, found) ↦
            let e' = rw (found, accept) at e in
            (ground arith, rw (tail-eq (ap (λ t. t.1) e')) ((_, refl), tt))
      ]

  -- If `saveAndClose` answers with an alert, nothing but alerts follows, so that no request is made,
  -- and the clicked project is as before.
  pub save_refused :
      (month : ℕ) (dg : Bool) (cost : Value N) (grid : List (Item N)) (p p' : Popup N)
      (text : String) (rest : List (Effect N))
      → save_and_close month dg cost grid p ≡ some (p', alert text ∷ rest)
      → (p'.clicked ≡ p.clicked) × All IsAlert rest
  unfolding save_and_close
  save_refused month dg cost grid p p' text rest e =
      let ((i, err, ds), es, e1) = >>=-eq-some (scan (p.clicked.cells 1) p.rows) _ e in
      elim (Option-cases (refusal i err)) [
        | inl passed ↦
            let (repeated, ed, e2) =
              >>=-eq-some (duplicates (fill_names (first_name ds) ds)) _ (rw passed at e1) in
            let q : Popup N = record p {
              rows = fill_names (first_name ds) ds;
              tags = "Smart WBS" ∷ p.tags;
            } in
            let (kept, alerts) =
              accept-eq-refused month dg cost grid q p' repeated (some-injective _ _ e2) in
            (ap (λ r. r.clicked) kept, alerts)
        | inr (msg, refused) ↦
            let e' = some-injective _ _ (rw refused at e1) in
            (ground arith, rw (tail-eq (ap (λ t. t.1) e')) tt)
      ]
