-- ===== src/Edit/Left.antt =====
-- war/scripts/editProjects.js, `updateMemCache`: what is left to spend, in the loop over the rows,
-- for a month.
use budget_app.Base.{
  ℕ, ◌≡◌, refl, ap, ap₂, ◌∙◌, ◌⊎◌, inl, inr, ◌≤◌, ◌<◌, true, false, ◌||◌, some, List, [], ◌∷◌, ◌++◌,
  length, suc, String, arith, if◌then◌else◌, Bool-cases, text_eq,
}
use budget_app.Constants.{forecast, accrual, quarterly_target, quarterly_lts}
use budget_app.Edit.Cells.{Context, Globals, is_month, is_open, is_live, matches}
use budget_app.Edit.Loop.{Edited, edit_rows}
use budget_app.Edit.Month.{first_row, edit_rows-month-cons, IsOf, matches-IsOf}
use budget_app.Edit.Rows.{target_month, note_month, lts_month}
use budget_app.Js.{Number, Value, str, num, Row, put, as_number, loose_eq, parse}
use budget_app.Months.{retotal}
use budget_app.Months.Total.{
  IsTotalled, retotal-IsTotalled, retotal-outside, filled, retotal-within,
}

month-range : (cell : ℕ) → is_month cell ≡ true → (12 ≤ cell) × (cell < 24)
unfolding is_month
month-range cell h = ground arith

module _ {N : Type 0} ⦃n : Number N⦄ where
  put-there : (d : Row N) (i : ℕ) (v : Value N) → put d i v i ≡ v
  put-there d i v = ground arith

  put-apart :
      (d : Row N) (c i : ℕ) (v : Value N)
      → is_month c ≡ true
      → (i < 12) ⊎ (25 ≤ i)
      → put d c v i ≡ d i
  unfolding is_month
  put-apart d c i v h o = ground arith

  month_put-cell :
      (d : Row N) (c : ℕ) (v : Value N) → is_month c ≡ true → retotal (put d c v) c ≡ filled v
  month_put-cell d c v h =
      let (p, q) = month-range c h in retotal-within (put d c v) c p q ∙ ap filled (put-there d c v)

  month_put-outside :
      (d : Row N) (c i : ℕ) (v : Value N)
      → is_month c ≡ true
      → (i < 12) ⊎ (25 ≤ i)
      → retotal (put d c v) i ≡ d i
  month_put-outside d c i v h o = retotal-outside (put d c v) i o ∙ put-apart d c i v h o

  -- A row of the edited project that is open for changes.
  pub record IsLiveOf (c : Context N) (kind : String) (d : Row N) : Type 0 where
    pub of_kind : IsOf c kind d
    pub live : is_live d ≡ true

  -- The target after the first part of its turn.
  target_row : Context N → Row N → Row N
  target_row c t = if is_open c then target_month c t else t

  first_row-target :
      (c : Context N) (t : Row N) → IsLiveOf c quarterly_target t → first_row c t ≡ target_row c t
  unfolding target_row
  first_row-target c t h =
      let not_forecast : matches c forecast t ≡ false =
        matches-IsOf c quarterly_target forecast t h.of_kind in
      let same : matches c quarterly_target t ≡ true =
        matches-IsOf c quarterly_target quarterly_target t h.of_kind in
      rw (not_forecast, same, h.live) refl

  target_row-IsLiveOf :
      (c : Context N) (t : Row N)
      → is_month c.cell ≡ true
      → IsLiveOf c quarterly_target t
      → IsLiveOf c quarterly_target (target_row c t)
  unfolding target_row target_month is_live
  target_row-IsLiveOf c t h mine = elim (Bool-cases (is_open c)) [
    | inr shut ↦ rw shut mine
    | inl opened ↦
        let same = λ (i : ℕ). month_put-outside t c.cell i (str (n.to_fixed (parse c.value))) h in
        rw opened (record {
          of_kind = record {
            own = ap (λ v. loose_eq c.key v) (same 34 (inr (omega arith))) ∙ mine.of_kind.own;
            named = same 11 (inl (omega arith)) ∙ mine.of_kind.named;
          };
          live =
              ap (λ v. loose_eq v (str "New") || loose_eq v (str "Active"))
                (same 26 (inr (omega arith)))
              ∙ mine.live;
        })
  ]

  first_row-still :
      (c : Context N) (kind : String) (d : Row N)
      → IsOf c kind d
      → text_eq kind forecast ≡ false
      → text_eq kind quarterly_target ≡ false
      → first_row c d ≡ d
  first_row-still c kind d h f t =
      let no_f = matches-IsOf c kind forecast d h ∙ f in
      let no_t = matches-IsOf c kind quarterly_target d h ∙ t in rw (no_f, no_t) refl

  lts_month-still :
      (c : Context N) (g : Globals N) (kind : String) (d : Row N)
      → IsOf c kind d
      → text_eq kind quarterly_lts ≡ false
      → lts_month c g d ≡ d
  unfolding lts_month
  lts_month-still c g kind d h e = rw (matches-IsOf c kind quarterly_lts d h ∙ e) refl

  note_month-target :
      (c : Context N) (d e : Row N) (g : Globals N)
      → is_month c.cell ≡ true
      → IsLiveOf c quarterly_target e
      → (note_month c d e g).target_cur ≡ e c.cell
  unfolding note_month
  note_month-target c d e g h mine =
      rw (matches-IsOf c quarterly_target quarterly_target e mine.of_kind, h, mine.live) refl

  note_month-accrual :
      (c : Context N) (d e : Row N) (g : Globals N)
      → is_month c.cell ≡ true
      → IsLiveOf c accrual e
      → ((note_month c d e g).accrual_cur ≡ e c.cell)
        × ((note_month c d e g).target_cur ≡ g.target_cur)
  unfolding note_month
  note_month-accrual c d e g h mine = (
    rw (matches-IsOf c accrual accrual e mine.of_kind, h, mine.live) refl,
    rw (matches-IsOf c accrual quarterly_target e mine.of_kind) refl,
  )

  note_month-lts :
      (c : Context N) (d e : Row N) (g : Globals N)
      → IsOf c quarterly_lts e
      → ((note_month c d e g).accrual_cur ≡ g.accrual_cur)
        × ((note_month c d e g).target_cur ≡ g.target_cur)
  unfolding note_month
  note_month-lts c d e g mine = (
    rw (matches-IsOf c quarterly_lts accrual e mine) refl,
    rw (matches-IsOf c quarterly_lts quarterly_target e mine) refl,
  )

  -- What is left to spend, as a value.
  abbrev pub left_of : Value N → Value N → Value N
  left_of target spent = num (parse (num (n.sub (as_number target) (as_number spent))))

  lts_month-cell :
      (c : Context N) (g : Globals N) (d : Row N)
      → is_month c.cell ≡ true
      → IsLiveOf c quarterly_lts d
      → (lts_month c g d c.cell ≡ filled (left_of g.target_cur g.accrual_cur))
        × IsTotalled (lts_month c g d)
  unfolding lts_month
  lts_month-cell c g d h mine =
      let v = left_of g.target_cur g.accrual_cur in
      rw (matches-IsOf c quarterly_lts quarterly_lts d mine.of_kind, h, mine.live)
        (month_put-cell d c.cell v h, retotal-IsTotalled (put d c.cell v))

  target_row-cell :
      (c : Context N) (t : Row N)
      → is_month c.cell ≡ true
      → target_row c t c.cell
        ≡ (if is_open c then filled (str (n.to_fixed (parse c.value))) else t c.cell)
  unfolding target_row target_month
  target_row-cell c t h = elim (Bool-cases (is_open c)) [
    | inl opened ↦ rw opened (month_put-cell t c.cell (str (n.to_fixed (parse c.value))) h)
    | inr shut ↦ rw shut refl
  ]

  -- When a month of a live project is edited and its target, accrual and left-to-spend rows are
  -- the next three, the target becomes the entered amount, rounded, if its quarter is open and
  -- stays otherwise; the accrual stays; what is left is the target less the accrual, as they now
  -- stand; and the total of the row of what is left is the sum of its months. A month that
  -- counts as blank becomes 0.
  pub edit_rows-left :
      (c : Context N) (g : Globals N) (t a l : Row N) (ds : List (Row N)) (r : Edited N)
      → is_month c.cell ≡ true
      → IsLiveOf c quarterly_target t
      → IsLiveOf c accrual a
      → IsLiveOf c quarterly_lts l
      → edit_rows c g (t ∷ a ∷ l ∷ ds) ≡ some r
      → (t' l' : Row N) × (rest : List (Row N)) × (r.rows ≡ t' ∷ a ∷ l' ∷ rest)
        × (t' c.cell ≡ (if is_open c then filled (str (n.to_fixed (parse c.value))) else t c.cell))
        × (l' c.cell ≡ filled (left_of (t' c.cell) (a c.cell)))
        × IsTotalled l'
  edit_rows-left c g t a l ds r h ht ha hl e =
      let t' = target_row c t in
      let mine = target_row-IsLiveOf c t h ht in
      let turn_t = edit_rows-month-cons c g t (a ∷ l ∷ ds) r h e in
      let turn_a = edit_rows-month-cons c turn_t.after a (l ∷ ds) turn_t.rest h turn_t.later in
      let turn_l = edit_rows-month-cons c turn_a.after l ds turn_a.rest h turn_a.later in
      let first_t = first_row-target c t ht in
      let first_a = first_row-still c accrual a ha.of_kind refl refl in
      let first_l = first_row-still c quarterly_lts l hl.of_kind refl refl in
      let row_t : lts_month c turn_t.after (first_row c t) ≡ t' =
        ap (lts_month c turn_t.after) first_t
        ∙ lts_month-still c turn_t.after quarterly_target t' mine.of_kind refl in
      let row_a : lts_month c turn_a.after (first_row c a) ≡ a =
        ap (lts_month c turn_a.after) first_a
        ∙ lts_month-still c turn_a.after accrual a ha.of_kind refl in
      let target : turn_t.after.target_cur ≡ t' c.cell =
        ap (λ s. s.target_cur) (turn_t.noted ∙ ap (λ x. note_month c t x g) first_t)
        ∙ note_month-target c t t' g h mine in
      let noted_a = turn_a.noted ∙ ap (λ x. note_month c a x turn_t.after) first_a in
      let noted_l = turn_l.noted ∙ ap (λ x. note_month c l x turn_a.after) first_l in
      let (spent_a, target_a) = note_month-accrual c a a turn_t.after h ha in
      let (spent_l, target_l) = note_month-lts c l l turn_a.after hl.of_kind in
      let spent : turn_l.after.accrual_cur ≡ a c.cell =
        ap (λ s. s.accrual_cur) noted_l ∙ spent_l ∙ ap (λ s. s.accrual_cur) noted_a ∙ spent_a in
      let aimed : turn_l.after.target_cur ≡ t' c.cell =
        ap (λ s. s.target_cur) noted_l
        ∙ target_l
        ∙ ap (λ s. s.target_cur) noted_a
        ∙ target_a
        ∙ target in
      let (cell, total) = lts_month-cell c turn_l.after l h hl in
      let l' = lts_month c turn_l.after l in
      (
        t',
        l',
        turn_l.rest.rows,
        turn_t.rows
            ∙ ap₂ {C = List (Row N)} ◌∷◌ row_t (
                turn_a.rows
                ∙ ap₂ {C = List (Row N)} ◌∷◌ row_a (
                    turn_l.rows ∙ ap (λ x. lts_month c turn_l.after x ∷ turn_l.rest.rows) first_l)),
        target_row-cell c t h,
        cell ∙ ap₂ (λ x y. filled (left_of x y)) aimed spent,
        total,
      )

  -- The same further down in the rows.
  pub edit_rows-left-after :
      (c : Context N) (g : Globals N) (before : List (Row N)) (t a l : Row N) (ds : List (Row N))
      (r : Edited N)
      → is_month c.cell ≡ true
      → IsLiveOf c quarterly_target t
      → IsLiveOf c accrual a
      → IsLiveOf c quarterly_lts l
      → edit_rows c g (before ++ (t ∷ a ∷ l ∷ ds)) ≡ some r
      → (first rest : List (Row N)) × (t' l' : Row N) × (r.rows ≡ first ++ (t' ∷ a ∷ l' ∷ rest))
        × (length first ≡ length before)
        × (t' c.cell ≡ (if is_open c then filled (str (n.to_fixed (parse c.value))) else t c.cell))
        × (l' c.cell ≡ filled (left_of (t' c.cell) (a c.cell)))
        × IsTotalled l'
  edit_rows-left-after c g [] t a l ds r h ht ha hl e =
      let (t', l', rest, all, aimed, left, total) = edit_rows-left c g t a l ds r h ht ha hl e in
      ([], rest, t', l', all, refl, aimed, left, total)
  edit_rows-left-after c g (d ∷ before) t a l ds r h ht ha hl e =
      let turn = edit_rows-month-cons c g d (before ++ (t ∷ a ∷ l ∷ ds)) r h e in
      let (first, rest, t', l', all, count, aimed, left, total) =
        edit_rows-left-after c turn.after before t a l ds turn.rest h ht ha hl turn.later in
      (
        lts_month c turn.after (first_row c d) ∷ first,
        rest,
        t',
        l',
        turn.rows ∙ ap (◌∷◌ (lts_month c turn.after (first_row c d))) all,
        ap suc count,
        aimed,
        left,
        total,
      )
