-- ===== src/Js/Values.antt =====
-- Cells, rows and the operators on them.
use budget_app.Base.{
  ℕ, Bool, true, false, not, ◌||◌, String, Option, none, some, ◌==◌, if◌then◌else◌, text_eq, trim,
}
use budget_app.Js.Numbers.{Number}

-- A cell of a row. `undefined` is also the value of a field that was never written.
pub data Value (N : Type 0) : Type 0 where
  undefined : Value N
  str : String → Value N
  num : N → Value N
  bool : Bool → Value N

-- The numbered fields of one row object.
abbrev pub Row : Type 0 → Type 0
Row N = ℕ → Value N

module _ {N : Type 0} where
  -- `row[field] = v`
  abbrev pub put : Row N → ℕ → Value N → Row N
  put row field v j = if field == j then v else row j

module _ {N : Type 0} ⦃n : Number N⦄ where
  -- `String(v)`, as string concatenation and `parseFloat` apply it
  abbrev pub to_string : Value N → String
  to_string undefined = "undefined"
  to_string (str s) = s
  to_string (num x) = n.show x
  to_string (bool true) = "true"
  to_string (bool false) = "false"

  -- `v.toString()`; `none` is the `TypeError` that `undefined.toString()` throws.
  abbrev pub to_string? : Value N → Option String
  to_string? undefined = none
  to_string? v = some (to_string v)

  -- `v.trim()`; only a text has that method.
  abbrev pub trim? : Value N → Option String
  trim? (str s) = some (trim s)
  trim? v = none

  -- `Number(v)`
  abbrev pub as_number : Value N → N
  as_number undefined = n.to_number "undefined"
  as_number (str s) = n.to_number s
  as_number (num x) = x
  as_number (bool b) = if b then n.of_nat 1 else n.of_nat 0

  -- `v == w`: two values of one type are compared as they are, `undefined` equals only itself, and
  -- all else is compared as numbers.
  unfoldable pub loose_eq : Value N → Value N → Bool
  loose_eq undefined undefined = true
  loose_eq undefined w = false
  loose_eq v undefined = false
  loose_eq (str s) (str t) = text_eq s t
  loose_eq (bool true) (bool c) = c
  loose_eq (bool false) (bool c) = not c
  loose_eq v w = n.eq (as_number v) (as_number w)

  -- `v == "" || v == "undefined"`
  unfoldable pub is_blank : Value N → Bool
  unfolding loose_eq
  is_blank v = loose_eq v (str "") || loose_eq v (str "undefined")

  -- `parseFloat(v)`
  abbrev pub parse : Value N → N
  parse v = n.parse_float (to_string v)
