-- ===== src/Submit/Sent.antt =====
-- war/scripts/editProjects.js, `submitProjects` as a whole.
use mathlib.Core.Option.{some-injective}
use budget_app.Base.{
  ℕ, zero, suc, ◌+◌, ◌≡◌, refl, sym, ap, ◌∙◌, ◌↔◌, inl, inr, true, false, ◌&&◌, none, some, List,
  [], ◌∷◌, ◌++◌, map, length, String, arith, ◌==◌, if◌then◌else◌, Bool-cases, Option-cases,
  >>=-eq-some,
}
use budget_app.Js.{Number, Value}
use budget_app.Page.{Item, Effect, sends, sends-append}
use budget_app.Submit.{
  Findings, code_alerts, add_row, is_short, with_name, row_verdict, settled, check_rows, conclude,
  submit_projects,
}
use budget_app.Submit.Ready.{
  ReadyRows, po_of, pos_append, check_rows-ReadyRows, IsReady-row_verdict,
}

code_alerts-sends : (N : Type 0) (i code : ℕ) → sends (code_alerts {N = N} i code) ≡ false
unfolding code_alerts
code_alerts-sends N i code = ground arith

module _ {N : Type 0} ⦃n : Number N⦄ where
  check_rows_of_ReadyRows :
      (left i : ℕ) (ds : List (Item N)) (msg : String) (rest : List (Item N))
      → ReadyRows left (map po_of ds) rest
      → (f : Findings N) × (check_rows left i ds msg rest ≡ some f)
        × (f.err ≡ 0)
        × (f.flagged ≡ none)
        × (length f.stored ≡ left)
  unfolding check_rows
  check_rows_of_ReadyRows zero i ds msg rest h = (_, refl, refl, refl, refl)
  check_rows_of_ReadyRows (suc left) i ds msg [] h = absurd h
  check_rows_of_ReadyRows (suc left) i ds msg (d ∷ rest) (ready, h) =
      let (multi, ev) = IsReady-row_verdict ds d ready in
      let e = settled multi d in
      let msg' = if multi && is_short e then with_name msg (d.cells 2) else msg in
      let (f, ef, clean, whole, count) =
        check_rows_of_ReadyRows left (i + 1) (ds ++ (e ∷ [])) msg' rest
          (rw (pos_append ds multi d) h) in
      (add_row e (code_alerts i 0) f, rw ev (rw ef), clean, whole, ap suc count)

  pub check_rows-quiet :
      (left i : ℕ) (ds : List (Item N)) (msg : String) (rest : List (Item N)) {f : Findings N}
      → check_rows left i ds msg rest ≡ some f
      → sends f.effects ≡ false
  unfolding check_rows
  check_rows-quiet zero i ds msg rest e = ap (λ g. sends g.effects) (sym (some-injective _ _ e))
  check_rows-quiet (suc left) i ds msg [] e = cc
  check_rows-quiet (suc left) i ds msg (d ∷ rest) e =
      let ((undivided, multi, code), ev, e1) = >>=-eq-some (row_verdict ds d) _ e in
      elim (Bool-cases undivided) [
        | inl u ↦ ap (λ g. sends g.effects) (sym (some-injective _ _ (rw u at e1)))
        | inr u ↦ elim (Bool-cases (code == 0)) [
          | inl z ↦
              let msg' =
                if multi && is_short (settled multi d) then with_name msg (d.cells 2) else msg in
              let (g, eg, e2) =
                >>=-eq-some (check_rows left (i + 1) (ds ++ (settled multi d ∷ [])) msg' rest) _
                  (rw (u, z) at e1) in
              let quiet =
                check_rows-quiet left (i + 1) (ds ++ (settled multi d ∷ [])) msg' rest {f = g} eg in
              let told = sends-append (code_alerts i code) g.effects in
              ap (λ r. sends r.effects) (sym (some-injective _ _ e2))
              ∙ (told ∙ (rw (code_alerts-sends N i code) quiet))
          | inr nz ↦
              ap (λ g. sends g.effects) (sym (some-injective _ _ (rw (u, nz) at e1)))
              ∙ code_alerts-sends N i code
        ]
      ]

  conclude-sends :
      (cost : Value N) (f : Findings N)
      → sends f.effects ≡ false
      → (sends (conclude cost f) ≡ true) ↔ ((f.err ≡ 0) × (f.flagged ≡ none))
  unfolding conclude
  conclude-sends cost f quiet = elim (Option-cases f.flagged) [
    | inl whole ↦ rw (whole, conclude) (simp (sends-append, quiet) (ground arith))
    | inr (name, flagged) ↦ rw (flagged, conclude) (simp (sends-append, quiet) (ground arith))
  ]

  -- `submitProjects` makes its request exactly when the rows entered since the page was loaded exist
  -- and each has a name and a brand, repeats no PO number of an earlier one, and has been divided
  -- if its brand is Smart WBS.
  pub submit_iff :
      (cost : Value N) (addsave : ℕ) (grid : List (Item N))
      → ((grid' : List (Item N)) × (effects : List (Effect N)) × (submit_projects cost addsave grid
            ≡ some (grid', effects))
          × (sends effects ≡ true))
        ↔ ReadyRows addsave [] grid
  unfolding submit_projects
  submit_iff cost addsave grid = (
    λ (grid', effects, e, sent).
        let (f, ef, e1) = >>=-eq-some (check_rows addsave 0 [] "" grid) _ e in
        let same : conclude cost f ≡ effects = ap (λ t. t.1) (some-injective _ _ e1) in
        let quiet = check_rows-quiet addsave 0 [] "" grid ef in
        let (clean, whole) = (conclude-sends cost f quiet).0 (ap sends same ∙ sent) in
        check_rows-ReadyRows addsave 0 [] "" grid ef clean whole,
    λ h.
        let (f, ef, clean, whole, _) = check_rows_of_ReadyRows addsave 0 [] "" grid h in
        let quiet = check_rows-quiet addsave 0 [] "" grid ef in
        (f.grid, conclude cost f, rw ef, (conclude-sends cost f quiet).1 (clean, whole)),
  )
