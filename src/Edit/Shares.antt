-- ===== src/Edit/Shares.antt =====
-- war/scripts/editProjects.js, `updateMemCache`: the share of the last sub-project of a multi-brand
-- project.
use mathlib.Core.Option.{some-injective}
use budget_app.Base.{
  ℕ, zero, suc, ◌≡◌, sym, ap, ◌∙◌, inl, inr, Bool, true, String, Option, none, some, List, [], ◌∷◌,
  ◌++◌, get_elem?, arith, if◌then◌else◌, Bool-cases, contains, >>=-eq-some,
}
use budget_app.Edit.Remainder.{store, add_change, remainder}
use budget_app.Edit.Rows.{Change}
use budget_app.Js.{
  Number, Value, str, num, bool, undefined, Row, put, to_string, to_string?, loose_eq, parse,
}

module _ {N : Type 0} ⦃n : Number N⦄ where
  -- The identifier of a sub-project has a point.
  abbrev pub is_part : Value N → Bool
  is_part id = contains (to_string id) "."

  -- The amount of the project: that of its last change before, or else `total`.
  abbrev pub amount_of : Value N → List (Change N) → Value N
  amount_of total [] = total
  amount_of total ((id, v) ∷ cs) =
      amount_of (if is_part id then total else str (n.to_fixed (parse v))) cs

  -- What its sub-projects have used, rounded after each.
  abbrev pub used_of : Value N → List (Change N) → Value N
  used_of used [] = used
  used_of used ((id, v) ∷ cs) =
      used_of (if is_part id then str (n.to_fixed (n.add (parse used) (parse v))) else used) cs

  to_string?-inverse : (v : Value N) {s : String} → to_string? v ≡ some s → to_string v ≡ s
  to_string?-inverse undefined e = cc
  to_string?-inverse (str s) e = some-injective _ _ e
  to_string?-inverse (num x) e = some-injective _ _ e
  to_string?-inverse (bool b) e = some-injective _ _ e

  add_change-eq-some :
      (c : Change N) (o : Option (List (Change N) × List (Row N))) {cs : List (Change N)}
      {ds : List (Row N)}
      → add_change c o ≡ some (cs, ds)
      → (cs' : List (Change N)) × (o ≡ some (cs', ds)) × (cs ≡ c ∷ cs')
  add_change-eq-some c none e = cc
  add_change-eq-some c (some (cs', ds')) e = (cs', ground arith, ground arith)

  remainder-cons :
      (cell : ℕ) (total used id v : Value N) (c : Change N) (cs : List (Change N))
      (ds : List (Row N)) {cs' : List (Change N)} {ds' : List (Row N)}
      → remainder cell total used ((id, v) ∷ c ∷ cs) ds ≡ some (cs', ds')
      → (rest : List (Change N)) × (remainder cell
            (amount_of total ((id, v) ∷ []))
            (used_of used ((id, v) ∷ []))
            (c ∷ cs)
            ds
          ≡ some (rest, ds'))
        × (cs' ≡ (id, v) ∷ rest)
  unfolding remainder
  remainder-cons cell total used id v c cs ds e =
      let (s, es, e1) = >>=-eq-some (to_string? id) _ e in
      let text = to_string?-inverse id es in
      elim (Bool-cases (contains s ".")) [
        | inl p ↦ rw (text, p) (add_change-eq-some (id, v) _ (rw p at e1))
        | inr q ↦ rw (text, q) (add_change-eq-some (id, v) _ (rw q at e1))
      ]

  store-at :
      (cell : ℕ) (id v : Value N) (ds : List (Row N)) (i : ℕ) (d : Row N)
      → get_elem? ds i ≡ some d
      → get_elem? (store cell id v ds) i ≡ some (if loose_eq (d 27) id then put d cell v else d)
  unfolding store
  store-at cell id v [] i d e = cc
  store-at cell id v (x ∷ ds) zero d e =
      ap (λ y. some (if loose_eq (y 27) id then put y cell v else y)) (some-injective _ _ e)
  store-at cell id v (x ∷ ds) (suc i) d e = store-at cell id v ds i d e

  remainder-one :
      (cell : ℕ) (total used id v : Value N) (ds : List (Row N)) {cs' : List (Change N)}
      {ds' : List (Row N)}
      → is_part id ≡ true
      → remainder cell total used ((id, v) ∷ []) ds ≡ some (cs', ds')
      → let left = str (n.to_fixed (n.sub (parse total) (parse used))) in
        (cs' ≡ (id, left) ∷ []) × (ds' ≡ store cell id left ds)
  unfolding remainder
  remainder-one cell total used id v ds part e =
      let (s, es, e1) = >>=-eq-some (to_string? id) _ e in
      let dot : contains s "." ≡ true =
        ap (λ t. contains t ".") (sym (to_string?-inverse id es)) ∙ part in
      let e2 = some-injective _ _ (rw dot at e1) in (sym (ap (λ t. t.0) e2), sym (ap (λ t. t.1) e2))

  -- If the last change is a sub-project's, it becomes what the project's amount leaves after the
  -- sub-projects before it, and that value is written to the month of every row with its
  -- identifier, whatever the row's kind; the other changes and rows stay.
  pub remainder-last :
      (cell : ℕ) (total used : Value N) (before : List (Change N)) (id v : Value N)
      (ds : List (Row N)) (cs' : List (Change N)) (ds' : List (Row N))
      → is_part id ≡ true
      → remainder cell total used (before ++ ((id, v) ∷ [])) ds ≡ some (cs', ds')
      → let left =
          str (n.to_fixed (n.sub (parse (amount_of total before)) (parse (used_of used before)))) in
        (cs' ≡ before ++ ((id, left) ∷ []))
        × ((i : ℕ) (d : Row N)
            → get_elem? ds i ≡ some d
            → get_elem? ds' i ≡ some (if loose_eq (d 27) id then put d cell left else d))
  remainder-last cell total used [] id v ds cs' ds' part e =
      let left = str (n.to_fixed (n.sub (parse total) (parse used))) in
      let (ec, ed) = remainder-one cell total used id v ds part e in
      (ec, λ i d at. ap (λ es. get_elem? es i) ed ∙ store-at cell id left ds i d at)
  remainder-last cell total used ((id0, v0) ∷ []) id v ds cs' ds' part e =
      let (rest, e1, ec) = remainder-cons cell total used id0 v0 (id, v) [] ds e in
      let (e2, stored) =
        remainder-last cell (amount_of total ((id0, v0) ∷ [])) (used_of used ((id0, v0) ∷ [])) [] id
          v ds rest ds' part e1 in
      (ec ∙ ap (◌∷◌ (id0, v0)) e2, stored)
  remainder-last cell total used ((id0, v0) ∷ c ∷ before) id v ds cs' ds' part e =
      let (rest, e1, ec) =
        remainder-cons cell total used id0 v0 c (before ++ ((id, v) ∷ [])) ds e in
      let (e2, stored) =
        remainder-last cell (amount_of total ((id0, v0) ∷ [])) (used_of used ((id0, v0) ∷ []))
          (c ∷ before) id v ds rest ds' part e1 in
      (ec ∙ ap (◌∷◌ (id0, v0)) e2, stored)
