-- ===== src/Arrays/Removed.antt =====
-- war/scripts/editProjects.js, `removeArrayItem`: the loop over the array.
use mathlib.Core.List.{append-nil, append_assoc}
use budget_app.Arrays.{splice, remove_items, remove_array_item}
use budget_app.Base.{
  ℕ, suc, ◌+◌, ◌≡◌, refl, sym, ap, ◌∙◌, inl, inr, Bool, not, none, some, List, [], ◌∷◌, ◌++◌,
  length, get_elem?, select, Bool-cases, arith, length-append,
}
use budget_app.Groups.{strict_eq}
use budget_app.Js.{Number, Value}

module _ {N : Type 0} where
  get_elem?-length :
      (kept rest : List (Value N)) (x : Value N)
      → get_elem? (kept ++ (x ∷ rest)) (length kept) ≡ some x
  get_elem?-length [] rest x = refl
  get_elem?-length (k ∷ kept) rest x = get_elem?-length kept rest x

  get_elem?-end : (kept : List (Value N)) → get_elem? kept (length kept) ≡ none
  get_elem?-end [] = refl
  get_elem?-end (k ∷ kept) = get_elem?-end kept

  splice-length :
      (kept rest : List (Value N)) (x : Value N)
      → splice (length kept) (kept ++ (x ∷ rest)) ≡ kept ++ rest
  unfolding splice
  splice-length [] rest x = refl
  splice-length (k ∷ kept) rest x = ap (◌∷◌ k) (splice-length kept rest x)

module _ {N : Type 0} ⦃n : Number N⦄ where
  abbrev pub is_other : Value N → Value N → Bool
  is_other item x = not (strict_eq x item)

  remove_items-end :
      (fuel : ℕ) (item : Value N) (kept : List (Value N)) (counter : ℕ)
      → remove_items (suc fuel) item (length kept) counter kept ≡ some (kept, counter)
  unfolding remove_items
  remove_items-end fuel item kept counter = rw (remove_items, get_elem?-end kept) refl

  remove_items-kept :
      (item : Value N) (kept rest arr : List (Value N)) (index counter : ℕ)
      → index ≡ length kept
      → arr ≡ kept ++ rest
      → remove_items (suc (length rest)) item index counter arr
        ≡ some (
          kept ++ select (is_other item) rest,
          counter + length (select (λ x. strict_eq x item) rest),
        )
  unfolding remove_items
  remove_items-kept item kept [] arr index counter at whole =
      rw (at, whole ∙ append-nil kept)
        (remove_items-end 0 item kept counter
          ∙ (rw append-nil (ap (λ k. some (kept, k)) (omega arith))))
  remove_items-kept item kept (x ∷ rest) arr index counter at whole =
      rw (at, whole)
        (rw (remove_items, get_elem?-length kept rest x)
          (elim (Bool-cases (strict_eq x item)) [
            | inl same ↦
                let later =
                  remove_items-kept item kept rest _ (length kept) (counter + 1) refl
                    (splice-length kept rest x) in
                rw same
                  (later ∙ ap (λ k. some (kept ++ select (is_other item) rest, k)) (omega arith))
            | inr other ↦
                let moved = append_assoc kept (x ∷ []) (select (is_other item) rest) in
                let later =
                  remove_items-kept item (kept ++ (x ∷ [])) rest (kept ++ (x ∷ rest))
                    (length kept + 1) counter (sym (length-append kept (x ∷ [])))
                    (sym (append_assoc kept (x ∷ []) rest)) in
                rw other (
                  later
                  ∙ ap (λ xs. some (xs, counter + length (select (λ x. strict_eq x item) rest)))
                      moved)
          ]))

  -- `removeArrayItem` ends: it removes exactly the entries that are strictly equal to the item, keeps
  -- the others in their order, and returns how many it has removed.
  pub remove_array_item-select :
      (arr : List (Value N)) (item : Value N)
      → remove_array_item arr item
        ≡ some (select (is_other item) arr, length (select (λ x. strict_eq x item) arr))
  unfolding remove_array_item
  remove_array_item-select arr item =
      remove_items-kept item [] arr arr 0 0 refl refl
      ∙ ap (λ k. some (select (is_other item) arr, k)) (omega arith)
