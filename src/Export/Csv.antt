-- ===== src/Export/Csv.antt =====
-- `JSONToEXCELConvertor`: the text of the file and its name. The objects of the array are lists of
-- names with values; the date and time are arguments.
use Prim.Native.Char.{code}
use Prim.Native.String.{[], ◌∷◌}
use budget_app.Base.{
  ℕ, Bool, String, Option, none, some, List, [], ◌∷◌, ltb, ◌==◌, if◌then◌else◌, text_eq, concat,
}
use budget_app.Js.{Number, Value, to_string}
use budget_app.Popup.Checks.{inner}

-- An object in the order of its properties.
abbrev pub Record : Type 0 → Type 0
Record N = List (String × Value N)

-- `row += index + ','` for each name
unfoldable pub label_loop : {N : Type 0} → String → Record N → String
label_loop row [] = row
label_loop row ((name, v) ∷ fs) = label_loop (concat row (concat name ",")) fs

-- `row.slice(0, -1)`
unfoldable pub label_row : {N : Type 0} → List (Record N) → String
unfolding label_loop inner
label_row [] = inner ""
label_row (fs ∷ rs) = inner (label_loop "" fs)

-- `title.replace(/ /g, "_")`
unfoldable pub underscored : String → String
underscored [] = ""
underscored (c ∷ s) = let rest = underscored s in if code c == 32 then concat "_" rest else c ∷ rest

-- A number of two digits at least; `print` prints a number.
unfoldable pub padded : (ℕ → String) → ℕ → String
padded print k = let s = print k in if ltb k 10 then concat "0" s else s

unfoldable pub file_name : (ℕ → String) → String → ℕ → ℕ → ℕ → ℕ → ℕ → ℕ → String
unfolding underscored padded
file_name print title month day year hour minute second = concat (underscored title) (
    concat "_Report_" (
      concat (padded print month) (
        concat "_" (
          concat (padded print day) (
            concat "_" (
              concat (print year) (
                concat "_" (
                  concat (print hour) (
                    concat "_"
                      (concat (print minute) (concat "_" (concat (print second) ".csv"))))))))))))

module _ {N : Type 0} ⦃n : Number N⦄ where
  abbrev pub quoted : Value N → String
  quoted v = concat "\"" (concat (to_string v) "\"")

  -- `row += '"' + value + '",'` for each value. The `slice` that follows has no effect: its result is
  -- not used.
  unfoldable pub value_loop : String → Record N → String
  value_loop row [] = row
  value_loop row ((name, v) ∷ fs) = value_loop (concat row (concat (quoted v) ",")) fs

  unfoldable pub csv_rows : List (Record N) → String
  unfolding value_loop
  csv_rows [] = ""
  csv_rows (fs ∷ rs) = concat (value_loop "" fs) (concat "\r\n" (csv_rows rs))

  unfoldable pub csv : Bool → List (Record N) → String
  unfolding csv_rows label_row
  csv show_label rs =
      if show_label then concat (label_row rs) (concat "\r\n" (csv_rows rs)) else csv_rows rs

  -- The file's name and text, or nothing and the alert "Invalid data".
  unfoldable pub json_to_excel :
      Bool → String → ℕ → ℕ → ℕ → ℕ → ℕ → ℕ → List (Record N) → Option (String × String)
  unfolding csv file_name
  json_to_excel show_label title month day year hour minute second rs =
      let text = csv show_label rs in
      if text_eq text ""
      then none
      else some (file_name (λ k. n.show (n.of_nat k)) title month day year hour minute second, text)
