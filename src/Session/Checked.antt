-- ===== src/Session/Checked.antt =====
-- war/scripts/editProjects.js, `submitProjects` on a page with entered projects.
use mathlib.Core.Option.{some-injective}
use budget_app.Base.{
  ℕ, zero, suc, ◌+◌, ◌&&◌, ◌≡◌, subst, ap, ◌∙◌, inl, inr, Bool, true, false, String, some, List, [],
  ◌∷◌, ◌++◌, All, arith, ◌==◌, if◌then◌else◌, Bool-cases, >>=-eq-some,
}
use budget_app.Create.{Grid}
use budget_app.Js.{Number, Value}
use budget_app.Page.{Item, Effect}
use budget_app.Submit.{
  Findings, submit_projects, check_rows, settled, row_verdict, fill_amounts, is_short, with_name,
}
use budget_app.Months.Total.{fill_months-outside}
use budget_app.Session.Entered.{IsEntered, StartsEntered}

module _ {N : Type 0} ⦃n : Number N⦄ where
  settled-IsEntered : (multi : Bool) (d : Item N) → IsEntered d → IsEntered (settled multi d)
  unfolding settled fill_amounts
  settled-IsEntered false d h = h
  settled-IsEntered true d (new, other) =
      (fill_months-outside 12 12 d.cells 35 (inr (omega arith)) ∙ new, other)

  -- What a check of the rows leaves of them, and what it stores, has been entered.
  abbrev pub Kept : ℕ → Findings N → Type 0
  Kept left f = StartsEntered left f.grid × All IsEntered f.stored

  pub check_rows-Kept :
      (left i : ℕ) (earlier : List (Item N)) (msg : String) (ds : List (Item N)) (f : Findings N)
      → check_rows left i earlier msg ds ≡ some f
      → StartsEntered left ds
      → Kept left f
  unfolding check_rows
  check_rows-Kept zero i earlier msg ds f e h = subst (Kept 0) (some-injective _ _ e) (tt, tt)
  check_rows-Kept (suc left) i earlier msg [] f e h = absurd h
  check_rows-Kept (suc left) i earlier msg (d ∷ ds) f e (entered, h) =
      let ((undivided, multi, code), ev, e1) = >>=-eq-some (row_verdict earlier d) _ e in
      let mine = settled-IsEntered multi d entered in
      elim (Bool-cases undivided) [
        | inl u ↦ subst (Kept (suc left)) (some-injective _ _ (rw u at e1)) ((entered, h), tt)
        | inr u ↦ elim (Bool-cases (code == 0)) [
          | inl z ↦
              let msg' =
                if multi && is_short (settled multi d) then with_name msg (d.cells 2) else msg in
              let (g, eg, e2) =
                >>=-eq-some (check_rows left (i + 1) (earlier ++ (settled multi d ∷ [])) msg' ds) _
                  (rw (u, z) at e1) in
              let (grid, stored) =
                check_rows-Kept left (i + 1) (earlier ++ (settled multi d ∷ [])) msg' ds g eg h in
              subst (Kept (suc left)) (some-injective _ _ e2) ((mine, grid), (mine, stored))
          | inr nz ↦
              subst (Kept (suc left)) (some-injective _ _ (rw (u, nz) at e1))
                ((mine, h), (mine, tt))
        ]
      ]

  pub submit-StartsEntered :
      (cost : Value N) (g : Grid N) (rows : List (Item N)) (effects : List (Effect N))
      → submit_projects cost g.addsave g.rows ≡ some (rows, effects)
      → StartsEntered g.addsave g.rows
      → StartsEntered g.addsave rows
  unfolding submit_projects
  submit-StartsEntered cost g rows effects e h =
      let (f, ef, e1) = >>=-eq-some (check_rows g.addsave 0 [] "" g.rows) _ e in
      subst (StartsEntered g.addsave) (ap (λ t. t.0) (some-injective _ _ e1))
        (check_rows-Kept g.addsave 0 [] "" g.rows f ef h).0
