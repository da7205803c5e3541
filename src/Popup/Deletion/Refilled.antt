-- ===== src/Popup/Deletion/Refilled.antt =====
-- war/scripts/editProjects.js, `deleteSelectedProjects`: the table afterwards.
use mathlib.Core.Option.{some-injective}
use native.Mathlib.Nat.{le_refl}
use budget_app.Base.{
  ℕ, suc, ◌+◌, ◌-◌, ◌≤◌, ◌≡◌, refl, sym, ap, ◌∙◌, ◌⊎◌, inl, inr, Bool, true, false, not, some, List,
  [], ◌∷◌, ◌++◌, length, replicate, select, length-append, length-replicate, arith, Bool-cases,
  ◌>>=◌, >>=-eq-some,
}
use budget_app.Js.{Number, str, Row, to_string?, as_number, loose_eq, is_blank, parse}
use budget_app.Page.{Item, Effect, confirm}
use budget_app.Popup.Rows.{Popup}
use budget_app.Popup.Deletion.{
  filler_row, is_ticked, remove_ticked, renumber, sum_leading, allocate, seed_first, refill,
  questions, delete_selected,
}

module _ {N : Type 0} ⦃n : Number N⦄ where
  -- If every question is answered with yes, exactly the rows that are not ticked stay, in their
  -- order, and there was a question for each of the others.
  remove_ticked-yes :
      (answer : ℕ → Bool) (k : ℕ) (ds : List (Row N))
      → ((i : ℕ) → answer i ≡ true)
      → let r = remove_ticked answer k ds in
        (r.kept ≡ select (λ d. not (is_ticked d)) ds)
        × (r.declined ≡ false)
        × (r.asked + length r.kept ≡ k + length ds)
  unfolding remove_ticked
  remove_ticked-yes answer k [] h = (refl, refl, refl)
  remove_ticked-yes answer k (d ∷ ds) h = elim (Bool-cases (is_ticked d)) [
    | inl t ↦
        rw (t, h k) (let (a, b, c) = remove_ticked-yes answer (k + 1) ds h in (a, b, omega arith))
    | inr f ↦
        rw f (let (a, b, c) = remove_ticked-yes answer k ds h in (ap (◌∷◌ d) a, b, omega arith))
  ]

  -- At the first question that is answered with no the loop stops: the rows asked about before are
  -- gone and all others stay.
  pub remove_ticked-declined :
      (answer : ℕ → Bool) (k : ℕ) (ds : List (Row N))
      → (remove_ticked answer k ds).declined ≡ true
      → (remove_ticked answer k ds).asked + length (remove_ticked answer k ds).kept
        ≡ k + length ds + 1
  unfolding remove_ticked
  remove_ticked-declined answer k [] h = cc
  remove_ticked-declined answer k (d ∷ ds) h =
      ground (arith, remove_ticked-declined answer (k + 1) ds, remove_ticked-declined answer k ds)

  remove_ticked-length :
      (answer : ℕ → Bool) (k : ℕ) (ds : List (Row N))
      → length (remove_ticked answer k ds).kept ≤ length ds
  unfolding remove_ticked
  remove_ticked-length answer k [] = omega arith
  remove_ticked-length answer k (d ∷ ds) =
      ground (arith, remove_ticked-length answer (k + 1) ds, remove_ticked-length answer k ds)

  renumber-length :
      (item : Item N) (c : ℕ) (ds : List (Row N)) {es : List (Row N)}
      → renumber item c ds ≡ some es
      → length es ≡ length ds
  unfolding renumber
  renumber-length item c [] e = rw (← some-injective _ _ e)
  renumber-length item c (d ∷ ds) e =
      let (name, _, e1) = >>=-eq-some (to_string? (d 4)) _ e in
      let (rest, er, e2) = >>=-eq-some (renumber item (c + 1) ds) _ e1 in
      rw (← some-injective _ _ e2) (ap suc (renumber-length item (c + 1) ds er))

  allocate-length : (s : N) (ds : List (Row N)) → length (allocate s ds) ≡ length ds
  unfolding allocate
  allocate-length s [] = refl
  allocate-length s (d ∷ ds) = ground (arith, allocate-length s ds)

  seed_first-length :
      (item : Item N) (ds : List (Row N)) {es : List (Row N)}
      → seed_first item ds ≡ some es
      → length es ≡ length ds
  unfolding seed_first
  seed_first-length item [] e = cc
  seed_first-length item (d ∷ ds) e = ground arith

  refill-length :
      (item : Item N) (old : ℕ) (kept : List (Row N)) {es : List (Row N)}
      → length kept ≤ old
      → refill item old kept ≡ some es
      → length es ≡ old
  unfolding refill
  refill-length item old kept h e =
      let full = kept ++ replicate (old - length kept) filler_row in
      let (ds, ed, e1) = >>=-eq-some (renumber item 0 full) _ e in
      omega (
        arith,
        renumber-length item 0 full ed,
        allocate-length (sum_leading (n.of_nat 0) ds) ds,
        seed_first-length item _ e1,
        length-append kept (replicate (old - length kept) (filler_row {N = N})),
        length-replicate (old - length kept) (filler_row {N = N}),
      )

  -- The allocation of each row before the first blank amount is its share of `sum` in percent.
  abbrev pub Allocated : N → List (Row N) → Type 0
  Allocated sum [] = Unit
  Allocated sum (d ∷ ds) =
      (is_blank (d 3) ≡ true)
      ⊎ ((d 2 ≡ str (n.to_fixed (n.mul (n.div (as_number (d 3)) sum) (n.of_nat 100))))
          × Allocated sum ds)

  allocate-Allocated : (s : N) (ds : List (Row N)) → Allocated s (allocate s ds)
  unfolding allocate
  allocate-Allocated s [] = tt
  allocate-Allocated s (d ∷ ds) = elim (Bool-cases (is_blank (d 3))) [
    | inl e ↦ rw e (inl e)
    | inr e ↦ rw e (inr (refl, allocate-Allocated s ds))
  ]

  sum_leading-allocate :
      (s acc : N) (ds : List (Row N)) → sum_leading acc (allocate s ds) ≡ sum_leading acc ds
  unfolding sum_leading allocate
  sum_leading-allocate s acc [] = refl
  sum_leading-allocate s acc (d ∷ ds) = elim (Bool-cases (is_blank (d 3))) [
    | inl e ↦ rw e (rw e refl)
    | inr e ↦ rw e (rw e (sum_leading-allocate s (n.add acc (parse (d 3))) ds))
  ]

  seed_first-Allocated :
      (s acc : N) (item : Item N) (ds : List (Row N)) {es : List (Row N)}
      → seed_first item ds ≡ some es
      → Allocated s ds
      → Allocated s es × (sum_leading acc es ≡ sum_leading acc ds)
  unfolding seed_first sum_leading
  seed_first-Allocated s acc item [] e a = cc
  seed_first-Allocated s acc item (d ∷ ds) e a = elim (Bool-cases (loose_eq (d 3) (str ""))) [
    | inl seeded ↦ rw (← some-injective _ _ (rw seeded at e)) (a, refl)
    | inr kept ↦ rw (← some-injective _ _ (rw kept at e)) (a, refl)
  ]

  refill-Allocated :
      (item : Item N) (old : ℕ) (kept : List (Row N)) {es : List (Row N)}
      → refill item old kept ≡ some es
      → Allocated (sum_leading (n.of_nat 0) es) es
  unfolding refill
  refill-Allocated item old kept e =
      let full = kept ++ replicate (old - length kept) filler_row in
      let (ds, ed, e1) = >>=-eq-some (renumber item 0 full) _ e in
      let s = sum_leading (n.of_nat 0) ds in
      let (a, same) =
        seed_first-Allocated s (n.of_nat 0) item (allocate s ds) e1 (allocate-Allocated s ds) in
      rw (same ∙ sum_leading-allocate s (n.of_nat 0) ds) a

  finish_lem :
      (p p' : Popup N) (kept : List (Row N)) (shown effects : List (Effect N))
      → length kept ≤ length p.rows
      → ◌>>=◌ {B = Popup N × List (Effect N)}
          (refill p.clicked (length p.rows) kept)
          (λ ds. some (record p { rows = ds }, shown))
        ≡ some (p', effects)
      → (length p'.rows ≡ length p.rows)
        × Allocated (sum_leading (n.of_nat 0) p'.rows) p'.rows
        × (p'.clicked ≡ p.clicked)
  finish_lem p p' kept shown effects h e =
      let (ds, ed, e1) = >>=-eq-some (refill p.clicked (length p.rows) kept) _ e in
      let same : p' ≡ record p { rows = ds } = ap (λ t. t.0) (sym (some-injective _ _ e1)) in
      rw same (
        refill-length p.clicked (length p.rows) kept h ed,
        refill-Allocated p.clicked (length p.rows) kept ed,
        refl,
      )

  -- Unless the user answers a question with no, the table has as many rows as before, and the
  -- allocation of each row before the first blank amount is its share of their sum.
  pub delete_refills :
      (allowed : Bool) (answer : ℕ → Bool) (p p' : Popup N) (effects : List (Effect N))
      → (allowed ≡ false) ⊎ ((remove_ticked answer 0 p.rows).declined ≡ false)
      → delete_selected allowed answer p ≡ some (p', effects)
      → (length p'.rows ≡ length p.rows)
        × Allocated (sum_leading (n.of_nat 0) p'.rows) p'.rows
        × (p'.clicked ≡ p.clicked)
  unfolding delete_selected
  delete_refills false answer p p' effects h e = finish_lem p p' p.rows _ effects (le_refl _) e
  delete_refills true answer p p' effects (inl h) e = cc
  delete_refills true answer p p' effects (inr h) e =
      finish_lem p p' (remove_ticked answer 0 p.rows).kept _ effects
        (remove_ticked-length answer 0 p.rows) (rw h at e)

  -- A user who answers a question with no after having answered others with yes is left with a
  -- table that is shorter by the rows already removed, and that is neither renumbered nor allocated.
  pub delete_declined :
      (answer : ℕ → Bool) (p : Popup N)
      → (remove_ticked answer 0 p.rows).declined ≡ true
      → (p' : Popup N) × (effects : List (Effect N)) × (delete_selected true answer p
          ≡ some (p', effects))
        × (p'.rows ≡ (remove_ticked answer 0 p.rows).kept)
        × (length p'.rows + length effects ≡ length p.rows + 1)
  unfolding delete_selected
  delete_declined answer p h =
      let r = remove_ticked answer 0 p.rows in
      (
        record p { rows = r.kept },
        questions r.asked,
        rw h,
        refl,
        omega (
          arith,
          remove_ticked-declined answer 0 p.rows h,
          length-replicate {A = Effect N} r.asked
              (confirm "Selected project(s) will be deleted. Want to continue?"),
        ),
      )
