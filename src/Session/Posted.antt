-- ===== src/Session/Posted.antt =====
-- war/scripts/editProjects.js: what a page posts when its projects are submitted.
use mathlib.Core.Option.{some-injective}
use budget_app.Base.{
  ◌≡◌, subst, ap, inl, inr, false, some, List, [], ◌∷◌, ◌++◌, All, arith, ◌==◌, text_eq, Bool-cases,
  Option-cases, >>=-eq-some,
}
use budget_app.Create.{Grid}
use budget_app.Js.{Number, Value}
use budget_app.Page.{Item, Effect, Payload, items, post, is_post, sends}
use budget_app.Session.{Reach}
use budget_app.Session.Entered.{IsEntered, StartsEntered}
use budget_app.Session.Checked.{check_rows-Kept}
use budget_app.Session.Steps.{Reach-StartsEntered}
use budget_app.Submit.{Findings, submit_projects, check_rows, conclude, short_warning, request}
use budget_app.Submit.Sent.{check_rows-quiet}

module _ {N : Type 0} ⦃n : Number N⦄ where
  abbrev pub HoldsEntered : Payload N → Type 0
  HoldsEntered (items ds) = All IsEntered ds
  HoldsEntered _ = Unit

  -- The rows in a request have been entered on the page.
  abbrev pub PostsEntered : Effect N → Type 0
  PostsEntered (post url body) = All (λ p. HoldsEntered p.1) body
  PostsEntered _ = Unit

  quiet_one : (e : Effect N) → is_post e ≡ false → PostsEntered e
  quiet_one (post url body) h = absurd (ground (arith, h))
  quiet_one _ h = tt

  quiet-PostsEntered : (es : List (Effect N)) → sends es ≡ false → All PostsEntered es
  quiet-PostsEntered [] h = tt
  quiet-PostsEntered (e ∷ es) h =
      (quiet_one e (ground (arith, h)), quiet-PostsEntered es (ground (arith, h)))

  All-append :
      (xs ys : List (Effect N))
      → All PostsEntered xs
      → All PostsEntered ys
      → All PostsEntered (xs ++ ys)
  All-append [] ys h k = k
  All-append (x ∷ xs) ys (p, h) k = (p, All-append xs ys h k)

  short_warning-PostsEntered : (f : Findings N) → All PostsEntered (short_warning f)
  short_warning-PostsEntered f = elim (Bool-cases (text_eq f.msg "")) [
    | inl e ↦ rw e tt
    | inr e ↦ rw e (tt, tt)
  ]

  request-PostsEntered :
      (cost : Value N) (f : Findings N) → All IsEntered f.stored → All PostsEntered (request cost f)
  request-PostsEntered cost f stored = elim (Option-cases f.flagged) [
    | inl whole ↦ rw whole (elim (Bool-cases (f.err == 0)) [
      | inl clean ↦ rw clean (tt, (tt, ((stored, (tt, tt)), tt)))
      | inr faulty ↦ rw faulty (tt, tt)
    ])
    | inr (name, flagged) ↦ rw flagged (tt, tt)
  ]

  conclude-PostsEntered :
      (cost : Value N) (f : Findings N)
      → sends f.effects ≡ false
      → All IsEntered f.stored
      → All PostsEntered (conclude cost f)
  unfolding conclude
  conclude-PostsEntered cost f quiet stored =
      All-append (f.effects ++ short_warning f) (request cost f)
        (All-append f.effects (short_warning f) (quiet-PostsEntered f.effects quiet)
          (short_warning-PostsEntered f))
        (request-PostsEntered cost f stored)

  -- Take a page on which nothing has been entered yet, and let projects be entered, groups be listed,
  -- columns be typed into, cells be edited, the pop-up be saved and closed, requests of edits fail and
  -- projects be submitted, any number of times and in any order. If the projects are then submitted,
  -- every row in the request is one that has been entered on the page.
  pub submit-PostsEntered :
      (cost : Value N) (g g' : Grid N) (rows : List (Item N)) (effects : List (Effect N))
      → g.addsave ≡ 0
      → Reach g g'
      → submit_projects cost g'.addsave g'.rows ≡ some (rows, effects)
      → All PostsEntered effects
  unfolding submit_projects
  submit-PostsEntered cost g g' rows effects start r e =
      let first : StartsEntered g.addsave g.rows = rw start tt in
      let (f, ef, e1) = >>=-eq-some (check_rows g'.addsave 0 [] "" g'.rows) _ e in
      let kept = check_rows-Kept g'.addsave 0 [] "" g'.rows f ef (Reach-StartsEntered r first) in
      let quiet = check_rows-quiet g'.addsave 0 [] "" g'.rows ef in
      subst (All PostsEntered) (ap (λ t. t.1) (some-injective _ _ e1))
        (conclude-PostsEntered cost f quiet kept.1)
