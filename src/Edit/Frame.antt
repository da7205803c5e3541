-- ===== src/Edit/Frame.antt =====
-- war/scripts/editProjects.js, `updateMemCache`: the turns of the loop over the rows, and those for
-- other projects.
use mathlib.Core.Option.{some-injective}
use budget_app.Base.{
  ℕ, zero, suc, ◌≡◌, refl, sym, ap, ◌∙◌, ◌⊎◌, inl, inr, true, false, Option, some, List, [], ◌∷◌,
  get_elem?, arith, ◌>>=◌, >>=-eq-some,
}
use budget_app.Edit.Cells.{Context, Globals, matches}
use budget_app.Edit.Loop.{Edited, add_turn, second_part, edit_rows}
use budget_app.Edit.Rows.{Change, Turn, going, halted, first_part, note_month, copy_name, lts_month}
use budget_app.Js.{Number, Row, loose_eq}

module _ {N : Type 0} ⦃n : Number N⦄ where
  -- A row of another project takes no part.
  pub first_part-other :
      (c : Context N) (d : Row N)
      → loose_eq c.key (d 34) ≡ false
      → first_part c d ≡ some (going d [])
  unfolding first_part matches
  first_part-other c d h = rw h refl

  pub second_part-other :
      (c : Context N) (g : Globals N) (d : Row N)
      → loose_eq c.key (d 34) ≡ false
      → second_part c g d ≡ some d
  unfolding second_part copy_name lts_month matches
  second_part-other c g d h = rw h (rw h refl)

  -- How a turn ends: with an alert, or with the rest of the rows.
  pub record Halted (c : Context N) (g : Globals N) (d : Row N) (ds : List (Row N)) (r : Edited N)
      : Type 0 where
    pub row : Row N
    pub first : first_part c d ≡ some (halted row)
    pub result : r ≡ record { rows = row ∷ ds; changes = []; globals = g; ended = true }

  pub record Gone (c : Context N) (g : Globals N) (d : Row N) (ds : List (Row N)) (r : Edited N)
      : Type 0 where
    pub middle : Row N
    pub row : Row N
    pub cs : List (Change N)
    pub rest : Edited N
    pub first : first_part c d ≡ some (going middle cs)
    pub second : second_part c (note_month c d middle g) middle ≡ some row
    pub later : edit_rows c (note_month c d middle g) ds ≡ some rest
    pub result : r ≡ add_turn row cs rest

  pub edit_rows-cons :
      (c : Context N) (g : Globals N) (d : Row N) (ds : List (Row N)) (r : Edited N)
      → edit_rows c g (d ∷ ds) ≡ some r
      → Halted c g d ds r ⊎ Gone c g d ds r
  unfolding edit_rows
  edit_rows-cons c g d ds r e = let (t, et, e1) = >>=-eq-some (first_part c d) _ e in turn t et e1
    where
      turn :
          (t : Turn N)
          → first_part c d ≡ some t
          → (elim t [
            | halted e ↦ some (record { rows = e ∷ ds; changes = []; globals = g; ended = true })
            | going e cs ↦ second_part c (note_month c d e g) e >>= λ e'.
                edit_rows c (note_month c d e g) ds >>= λ r. some (add_turn e' cs r)
          ])
            ≡ some r
          → Halted c g d ds r ⊎ Gone c g d ds r
      turn (halted x) et e1 =
          inl (record { row = x; first = et; result = sym (some-injective _ _ e1) })
      turn (going x cs) et e1 =
          let (x', ex, e2) = >>=-eq-some (second_part c (note_month c d x g) x) _ e1 in
          let (s, es, e3) = >>=-eq-some (edit_rows c (note_month c d x g) ds) _ e2 in
          inr (record {
            middle = x;
            row = x';
            cs = cs;
            rest = s;
            first = et;
            second = ex;
            later = es;
            result = sym (some-injective _ _ e3);
          })

module _ {N : Type 0} ⦃n : Number N⦄ where
  going-parts :
      {d e : Row N} {cs es : List (Change N)}
      → ◌≡◌ {A = Option (Turn N)} (some (going d cs)) (some (going e es))
      → (d ≡ e) × (cs ≡ es)
  going-parts h = ground arith

  not_halted :
      {d e : Row N} {cs : List (Change N)}
      → ◌≡◌ {A = Option (Turn N)} (some (going d cs)) (some (halted e))
      → ⊥
  not_halted h = cc

  other_turn :
      (c : Context N) (g : Globals N) (x d : Row N) (ds : List (Row N)) (r : Edited N)
      → x ≡ d
      → loose_eq c.key (d 34) ≡ false
      → Halted c g x ds r ⊎ Gone c g x ds r
      → get_elem? r.rows 0 ≡ some d
  other_turn c g x d ds r same h (inl halt) = absurd (
      not_halted
        (sym (first_part-other c x (ap (λ e. loose_eq c.key (e 34)) same ∙ h)) ∙ halt.first))
  other_turn c g x d ds r same h (inr t) =
      let other : loose_eq c.key (x 34) ≡ false = ap (λ e. loose_eq c.key (e 34)) same ∙ h in
      let (em, _) = going-parts (sym (first_part-other c x other) ∙ t.first) in
      let kept : t.row ≡ x = some-injective _ _ (
        sym t.second
        ∙ ap (λ e. second_part c (note_month c x e g) e) (sym em)
        ∙ second_part-other c (note_month c x x g) x other) in
      ap (λ s. get_elem? s.rows 0) t.result ∙ ap some (kept ∙ same)

  -- An edit that goes through all rows, or is ended by a blank name, leaves every row of another
  -- project as it is, in its place.
  pub edit_rows-others :
      (c : Context N) (g : Globals N) (ds : List (Row N)) (r : Edited N) (i : ℕ) (d : Row N)
      → edit_rows c g ds ≡ some r
      → get_elem? ds i ≡ some d
      → loose_eq c.key (d 34) ≡ false
      → get_elem? r.rows i ≡ some d
  edit_rows-others c g [] r i d e at h = cc
  edit_rows-others c g (x ∷ ds) r zero d e at h =
      other_turn c g x d ds r (some-injective _ _ at) h (edit_rows-cons c g x ds r e)
  edit_rows-others c g (x ∷ ds) r (suc i) d e at h = elim (edit_rows-cons c g x ds r e) [
    | inl halt ↦ ap (λ s. get_elem? s.rows (suc i)) halt.result ∙ at
    | inr t ↦
        ap (λ s. get_elem? s.rows (suc i)) t.result
        ∙ edit_rows-others c (note_month c x t.middle g) ds t.rest i d t.later at h
  ]
