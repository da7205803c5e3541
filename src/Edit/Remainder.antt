-- ===== src/Edit/Remainder.antt =====
-- The remainder of a multi-brand project: its last sub-project gets what the others leave of the
-- project's amount.
use budget_app.Base.{ℕ, Option, none, some, List, [], ◌∷◌, if◌then◌else◌, contains, ◌>>=◌}
use budget_app.Edit.Rows.{Change}
use budget_app.Js.{Number, Value, str, Row, put, to_string?, loose_eq, parse}

module _ {N : Type 0} ⦃n : Number N⦄ where
  -- Each row with the identifier gets the value.
  unfoldable pub store : ℕ → Value N → Value N → List (Row N) → List (Row N)
  store cell id v [] = []
  store cell id v (d ∷ ds) = (if loose_eq (d 27) id then put d cell v else d) ∷ store cell id v ds

  abbrev pub add_change :
      Change N → Option (List (Change N) × List (Row N)) → Option (List (Change N) × List (Row N))
  add_change c none = none
  add_change c (some (cs, ds)) = some (c ∷ cs, ds)

  -- The loop over `aSaveData`, with `mTotal` and `iTotal`.
  unfoldable pub remainder :
      ℕ
      → Value N
      → Value N
      → List (Change N)
      → List (Row N)
      → Option (List (Change N) × List (Row N))
  unfolding store
  remainder cell total used [] ds = some ([], ds)
  remainder cell total used ((id, v) ∷ []) ds =
      let left = str (n.to_fixed (n.sub (parse total) (parse used))) in
      to_string? id >>= λ s.
      if contains s "."
      then some ((id, left) ∷ [], store cell id left ds)
      else some ((id, v) ∷ [], ds)
  remainder cell total used ((id, v) ∷ c ∷ cs) ds =
      let of_project =
        add_change (id, v) (remainder cell (str (n.to_fixed (parse v))) used (c ∷ cs) ds) in
      let of_part =
        add_change (id, v)
          (remainder cell total (str (n.to_fixed (n.add (parse used) (parse v)))) (c ∷ cs) ds) in
      to_string? id >>= λ s. if contains s "." then of_part else of_project
