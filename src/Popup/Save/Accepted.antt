-- ===== src/Popup/Save/Accepted.antt =====
-- war/scripts/editProjects.js, `saveAndClose`: the runs that save.
use mathlib.Core.Option.{some-injective}
use budget_app.Base.{
  ℕ, ◌≡◌, refl, ap, ◌∙◌, ◌≢◌, inl, inr, Bool, true, String, none, some, List, [], ◌∷◌, All, arith,
  Option-cases, text_eq_iff, contains, >>=-eq-some,
}
use budget_app.Base.Order.{Distinct}
use budget_app.Js.{Number, Value, Row, to_string}
use budget_app.Page.{Item, Effect, alert, hide, invalidate}
use budget_app.Popup.Rows.{Popup, cleared}
use budget_app.Popup.Checks.{scan, fill_names, brands_of, unassigned, owner_brands, duplicates}
use budget_app.Popup.Checks.Passed.{CompleteUpTo, named, own, scan_sound, duplicates-eq-nil_iff}
use budget_app.Popup.Save.{
  refusal, first_name, is_listed, brand_alerts, twin_alerts, divide, save_request, accept,
  save_and_close,
}

module _ {N : Type 0} ⦃n : Number N⦄ where
  -- The rows that are checked and sent: the named ones have got the clicked project's owner, and
  -- rows with a brand and no name the first row's name.
  pub sent_rows : Popup N → List (Row N)
  sent_rows p =
      let ds = own (named p.rows) (p.clicked.cells 1) p.rows in fill_names (first_name ds) ds

  -- The brand of the row occurs among those of its owner.
  abbrev pub IsAssigned : List (String × String) → Row N → Type 0
  IsAssigned users d = contains (brands_of users (d 7)) (to_string (d 1)) ≡ true

  unassigned-eq-none :
      (users : List (String × String)) (ds : List (Row N))
      → unassigned users ds ≡ none
      → All (IsAssigned users) ds
  unfolding unassigned
  unassigned-eq-none users [] e = tt
  unassigned-eq-none users (d ∷ ds) e = ground (arith, unassigned-eq-none users ds)

  pub not_hide :
      {text id : String} {es fs : List (Effect N)}
      → ◌≡◌ {A = List (Effect N)} (alert text ∷ es) (hide id ∷ fs)
      → ⊥
  not_hide e = cc

  pub tail-eq : {a b : Effect N} {es fs : List (Effect N)} → a ∷ es ≡ b ∷ fs → fs ≡ es
  tail-eq e = ground arith

  accept-eq-saved :
      (month : ℕ) (dg : Bool) (cost : Value N) (grid : List (Item N)) (p p' : Popup N)
      (ks : List String) {rest : List (Effect N)}
      → accept month dg cost grid p ks ≡ (p', hide "multibrandEdit" ∷ rest)
      → (unassigned p.users p.rows ≡ none)
        × (ks ≡ [])
        × (p'.rows ≡ cleared p.rows)
        × (p'.clicked ≡ divide month (is_listed p.clicked.id grid) p.rows p.clicked)
        × (rest
            ≡ hide "back"
              ∷ invalidate
              ∷ save_request dg cost p.rows
                  (divide month (is_listed p.clicked.id grid) p.rows p.clicked))
  unfolding accept brand_alerts twin_alerts
  accept-eq-saved month dg cost grid p p' [] e = elim (Option-cases (unassigned p.users p.rows)) [
    | inl found ↦
        let e' = rw (found, accept) at e in (found, refl, ground arith, ground arith, ground arith)
    | inr (d, found) ↦ absurd (not_hide (ap (λ t. t.1) (rw (found, accept) at e)))
  ]
  accept-eq-saved month dg cost grid p p' (k ∷ ks) e =
      elim (Option-cases (unassigned p.users p.rows)) [
        | inl found ↦ absurd (not_hide (ap (λ t. t.1) (rw (found, accept) at e)))
        | inr (d, found) ↦ absurd (not_hide (ap (λ t. t.1) (rw (found, accept) at e)))
      ]

pub refusal-eq-none : (i : ℕ) (err : String) → refusal i err ≡ none → (err ≡ "") × (i ≢ 1)
unfolding refusal
refusal-eq-none i err e = ground (arith, text_eq_iff err "")

module _ {N : Type 0} ⦃n : Number N⦄ where
  -- What holds when the pop-up has been closed by a save.
  pub record IsSaved (month : ℕ) (disable_grid : Bool) (cost : Value N) (grid : List (Item N))
      (p p' : Popup N) (rest : List (Effect N)) : Type 0 where
    pub complete : CompleteUpTo p.rows
    pub not_one : named p.rows ≢ 1
    pub assigned : All (IsAssigned p.users) (sent_rows p)
    pub keys : List String
    pub keyed : owner_brands (sent_rows p) ≡ some keys
    pub distinct : Distinct keys
    pub emptied : p'.rows ≡ cleared (sent_rows p)
    pub divided : p'.clicked ≡ divide month (is_listed p.clicked.id grid) (sent_rows p) p.clicked
    pub sent :
        rest ≡ hide "back" ∷ invalidate ∷ save_request disable_grid cost (sent_rows p) p'.clicked

  duplicates-keys :
      (ds : List (Row N)) {r : List String}
      → duplicates ds ≡ some r
      → (ks : List String) × (owner_brands ds ≡ some ks)
  unfolding duplicates
  duplicates-keys ds e = let (ks, ek, _) = >>=-eq-some (owner_brands ds) _ e in (ks, ek)

  accept-IsSaved :
      (month : ℕ) (dg : Bool) (cost : Value N) (grid : List (Item N)) (p p' : Popup N)
      (rest : List (Effect N)) {ds : List (Row N)} {repeated : List String}
      → CompleteUpTo p.rows
      → named p.rows ≢ 1
      → ds ≡ sent_rows p
      → (unassigned p.users ds ≡ none)
        × (repeated ≡ [])
        × (p'.rows ≡ cleared ds)
        × (p'.clicked ≡ divide month (is_listed p.clicked.id grid) ds p.clicked)
        × (rest
            ≡ hide "back"
              ∷ invalidate
              ∷ save_request dg cost ds (divide month (is_listed p.clicked.id grid) ds p.clicked))
      → duplicates ds ≡ some repeated
      → IsSaved month dg cost grid p p' rest
  accept-IsSaved month dg cost grid p p' rest {ds} complete many same
        (free, none_twice, empty, divided, sent) ed =
      let (ks, ek) = duplicates-keys ds ed in
      record {
        complete = complete;
        not_one = many;
        assigned = rw same at (unassigned-eq-none p.users ds free);
        keys = ks;
        keyed = rw same at ek;
        distinct = (duplicates-eq-nil_iff ds ks ek).0 (ed ∙ ap some none_twice);
        emptied = empty ∙ ap cleared same;
        divided = rw same at divided;
        sent = rw same at (rw (← divided) at sent);
      }

  -- If `saveAndClose` closes the pop-up, every row before the first without a project name has an
  -- id, a brand and an amount that is not zero, there is not exactly one such row, every row's brand
  -- occurs among its owner's, no owner and brand occur twice among the rows before the first that
  -- lacks one of them; the checked rows are those that are sent, the clicked project is divided by
  -- them, and the table is blank again.
  pub save_sound :
      (month : ℕ) (dg : Bool) (cost : Value N) (grid : List (Item N)) (p p' : Popup N)
      (rest : List (Effect N))
      → save_and_close month dg cost grid p ≡ some (p', hide "multibrandEdit" ∷ rest)
      → IsSaved month dg cost grid p p' rest
  unfolding save_and_close sent_rows
  save_sound month dg cost grid p p' rest e =
      let ((i, err, ds), es, e1) = >>=-eq-some (scan (p.clicked.cells 1) p.rows) _ e in
      elim (Option-cases (refusal i err)) [
        | inl passed ↦
            let (clean, many) = refusal-eq-none i err passed in
            let (complete, count, owned) =
              scan_sound _ p.rows (es ∙ ap (λ text. some (i, text, ds)) clean) in
            let (repeated, ed, e2) =
              >>=-eq-some (duplicates (fill_names (first_name ds) ds)) _ (rw passed at e1) in
            let q : Popup N = record p {
              rows = fill_names (first_name ds) ds;
              tags = "Smart WBS" ∷ p.tags;
            } in
            let saved = accept-eq-saved month dg cost grid q p' repeated (some-injective _ _ e2) in
            let same : fill_names (first_name ds) ds ≡ sent_rows p =
              ap (λ rows. fill_names (first_name rows) rows)
                (owned ∙ ap (λ k. own k (p.clicked.cells 1) p.rows) count) in
            accept-IsSaved month dg cost grid p p' rest complete (λ one. many (count ∙ one)) same
              saved ed
        | inr (text, refused) ↦
            absurd (not_hide (ap (λ t. t.1) (some-injective _ _ (rw refused at e1))))
      ]
