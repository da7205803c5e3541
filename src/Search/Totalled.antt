-- ===== src/Search/Totalled.antt =====
-- war/scripts/editProjects.js: a search, as `searchProject` fills the map, and the totals that
-- `calculateTotal` makes of it.
use mathlib.Core.List.{append-nil}
use budget_app.Base.{
  ℕ, ◌≤◌, ◌<◌, ◌≡◌, ◌≢◌, refl, sym, ap, inl, inr, Bool, false, String, some, List, [], ◌∷◌, ◌++◌,
  map, if◌then◌else◌, text_eq, text_eq_iff, ◌>>=◌, All, Bool-cases, select,
}
use budget_app.Base.Order.{Distinct, IsNew}
use budget_app.Js.{Number, Row, num}
use budget_app.Page.{Item, Effect}
use budget_app.Search.{Query, set_entry, map_key, refresh}
use budget_app.Search.Found.{AreTexts, is_found, is_shown, search_project-is_found}
use budget_app.Totals.{Entries, Totals, calculate_total}
use budget_app.Totals.Sums.{Sum, row_of, sum_from, entered}
use budget_app.Totals.Counted.{calculate_total-sum_from}

module _ {N : Type 0} where
  abbrev pub keys : Entries N → List String
  keys es = map (λ e. e.0) es

  IsNew-middle :
      (x k : String) (xs ys : Entries N) (d : Row N) → IsNew x (keys (xs ++ ((k, d) ∷ ys))) → x ≢ k
  IsNew-middle x k [] ys d h = h.0
  IsNew-middle x k (e ∷ xs) ys d h = IsNew-middle x k xs ys d h.1

  Distinct-IsNew :
      (k : String) (xs ys : Entries N) (d : Row N)
      → Distinct (keys (xs ++ ((k, d) ∷ ys)))
      → IsNew k (keys xs)
  Distinct-IsNew k [] ys d h = tt
  Distinct-IsNew k ((x, e) ∷ xs) ys d (new, h) =
      (λ same. IsNew-middle x k xs ys d new (sym same), Distinct-IsNew k xs ys d h)

  -- A new key is entered behind the others.
  set_entry_of_IsNew :
      (k : String) (d : Row N) (es : Entries N)
      → IsNew k (keys es)
      → set_entry k d es ≡ es ++ ((k, d) ∷ [])
  unfolding set_entry
  set_entry_of_IsNew k d [] h = refl
  set_entry_of_IsNew k d ((j, e) ∷ es) (apart, h) =
      let other : text_eq j k ≡ false = elim (Bool-cases (text_eq j k)) [
        | inl same ↦ absurd (apart (sym ((text_eq_iff j k).0 same)))
        | inr differ ↦ differ
      ] in
      rw other (rw (set_entry_of_IsNew k d es h) refl)

  append_one : (xs ys : Entries N) (e : String × Row N) → (xs ++ (e ∷ [])) ++ ys ≡ xs ++ (e ∷ ys)
  append_one [] ys e = refl
  append_one (x ∷ xs) ys e = ap (◌∷◌ x) (append_one xs ys e)

module _ {N : Type 0} ⦃n : Number N⦄ where
  -- The found rows with their keys, in their order.
  abbrev pub found_entries : Query N → List (Item N) → Entries N
  found_entries q [] = []
  found_entries q (item ∷ items) =
      let rest = found_entries q items in
      if is_found q item then (map_key item.cells, item.cells) ∷ rest else rest

  refresh-found_entries :
      (q : Query N) (items : List (Item N)) (es : Entries N)
      → All (λ i. AreTexts i.cells) items
      → Distinct (keys (es ++ found_entries q items))
      → refresh q items es ≡ some (select (is_shown q) items, es ++ found_entries q items)
  unfolding refresh
  refresh-found_entries q [] es h distinct = ap (λ r. some ([], r)) (sym (append-nil es))
  refresh-found_entries q (item ∷ items) es (h, hs) distinct =
      let e = search_project-is_found q item es h in
      elim (Bool-cases (is_found q item)) [
        | inl found ↦
            let k = map_key item.cells in
            let d = item.cells in
            let rest = found_entries q items in
            let all = rw found at distinct in
            let entered = set_entry_of_IsNew k d es (Distinct-IsNew k es rest d all) in
            let moved = append_one es rest (k, d) in
            let later = refresh-found_entries q items (es ++ ((k, d) ∷ [])) hs (rw moved all) in
            rw e (rw found (rw entered (rw later (rw moved refl))))
        | inr missed ↦
            rw e (rw missed (rw (refresh-found_entries q items es hs (rw missed at distinct)) refl))
      ]

  -- After a search from an empty map over rows whose searched fields are texts, of which the found ones
  -- have different keys, each month and the year in the rows of the forecasts, the accruals and the
  -- targets is the sum, from zero, of that field over the entries that the row is made of among the
  -- found ones, if the totals are found.
  pub refresh-calculate_total :
      (q : Query N) (items : List (Item N)) (all_kinds : Bool) (t : Totals N)
      (effects : List (Effect N)) (w : Sum) (f : Row N) (i : ℕ)
      → All (λ i. AreTexts i.cells) items
      → Distinct (keys (found_entries q items))
      → (refresh q items [] >>= λ r. calculate_total all_kinds r.1) ≡ some (t, effects)
      → row_of w t ≡ some f
      → 12 ≤ i
      → i < 25
      → f i ≡ sum_from i (num (n.of_nat 0)) (entered w "" (found_entries q items))
  refresh-calculate_total q items all_kinds t effects w f i texts distinct e h from to =
      let searched = refresh-found_entries q items [] texts distinct in
      calculate_total-sum_from all_kinds (found_entries q items) t effects w f i (rw searched at e)
        h from to
