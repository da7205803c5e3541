-- ===== src/Export/Lines.antt =====
-- war/scripts/fileHandle.js, `JSONToEXCELConvertor`: the lines of the file.
use Prim.Native.Char.{Char}
use Prim.Native.String.{[], ◌∷◌}
use text.Mathlib.TextLemmas.{nil-append, cons-append, append_assoc, append-nil}
use budget_app.Base.{comma_join, ◌≡◌, refl, sym, ap, ◌∙◌, String, List, [], ◌∷◌, map, concat}
use budget_app.Export.Csv.{Record, label_loop, label_row, quoted, value_loop, csv_rows}
use budget_app.Js.{Number, Value}
use budget_app.Popup.Checks.{inner}

comma_list : List String → String
comma_list [] = ""
comma_list (x ∷ xs) = concat (concat x ",") (comma_list xs)

comma_list-join :
    (x : String) (xs : List String) → comma_list (x ∷ xs) ≡ concat (comma_join (x ∷ xs)) ","
unfolding comma_list comma_join
comma_list-join x [] = append-nil (concat x ",")
comma_list-join x (y ∷ ys) =
    ap (concat (concat x ",")) (comma_list-join y ys)
    ∙ sym (append_assoc (concat x ",") (comma_join (y ∷ ys)) ",")
    ∙ ap (λ s. concat s ",") (append_assoc x "," (comma_join (y ∷ ys)))

-- `slice(0, -1)` takes off the last character.
inner-last : (s : String) (c : Char) → inner (concat s (c ∷ [])) ≡ s
unfolding inner
inner-last [] c = rw (nil-append (c ∷ [])) refl
inner-last (d ∷ []) c = rw (cons-append d [] (c ∷ []), nil-append (c ∷ [])) refl
inner-last (d ∷ e ∷ s) c =
    rw (cons-append d (e ∷ s) (c ∷ []), cons-append e s (c ∷ []))
      (ap {B = String} (λ t. d ∷ t) (rw (cons-append e s (c ∷ [])) at (inner-last (e ∷ s) c)))

module _ {N : Type 0} ⦃n : Number N⦄ where
  label_loop_lem :
      (row : String) (fs : Record N)
      → label_loop row fs ≡ concat row (comma_list (map (λ f. f.0) fs))
  unfolding label_loop comma_list
  label_loop_lem row [] = sym (append-nil row)
  label_loop_lem row ((name, v) ∷ fs) =
      label_loop_lem (concat row (concat name ",")) fs
      ∙ append_assoc row (concat name ",") (comma_list (map (λ f. f.0) fs))

  value_loop_lem :
      (row : String) (fs : Record N)
      → value_loop row fs ≡ concat row (comma_list (map (λ f. quoted f.1) fs))
  unfolding value_loop comma_list
  value_loop_lem row [] = sym (append-nil row)
  value_loop_lem row ((name, v) ∷ fs) =
      value_loop_lem (concat row (concat (quoted v) ",")) fs
      ∙ append_assoc row (concat (quoted v) ",") (comma_list (map (λ f. quoted f.1) fs))

  -- The line of labels is the names of the first object's fields, joined with commas; the line of an
  -- object is its quoted values, joined with commas, and one comma more.
  pub csv-lines :
      (f : String × Value N) (fs : Record N) (rs : List (Record N))
      → (label_row ((f ∷ fs) ∷ rs) ≡ comma_join (map (λ g. g.0) (f ∷ fs)))
        × (csv_rows ((f ∷ fs) ∷ rs)
            ≡ concat
                (concat (comma_join (map (λ g. quoted g.1) (f ∷ fs))) ",")
                (concat "\r\n" (csv_rows rs)))
  unfolding label_row csv_rows
  csv-lines f fs rs = (
    ap inner (
          label_loop_lem "" (f ∷ fs)
          ∙ nil-append (comma_list (map (λ g. g.0) (f ∷ fs)))
          ∙ comma_list-join f.0 (map (λ g. g.0) fs))
        ∙ inner-last (comma_join (map (λ g. g.0) (f ∷ fs))) ",",
    ap (λ s. concat s (concat "\r\n" (csv_rows rs)))
        (value_loop_lem "" (f ∷ fs)
          ∙ nil-append (comma_list (map (λ g. quoted g.1) (f ∷ fs)))
          ∙ comma_list-join (quoted f.1) (map (λ g. quoted g.1) fs)),
  )
