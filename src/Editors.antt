-- ===== src/Editors.antt =====
-- war/SlickGrid-master/slick.editors.js: the editors of cells that the application adds to those of
-- the grid, or has changed. An editor has a field on the page, opened with `loadValue` on a row. The
-- grid asks it whether the value has changed and is valid, and stores what it serializes. The field
-- shows one line; what the browser's number type accepts is in `Js.Numbers`.
pub mod LongText
pub mod Completion
pub mod Fresh
pub mod Checked
mod Tests
use Prim.Native.Char.{code}
use Prim.Native.String.{[], ◌∷◌}
use budget_app.Base.{
  ℕ, ◌≤◌, Bool, true, false, ◌&&◌, ◌||◌, not, String, Option, none, some, ◌==◌, if◌then◌else◌, ltb,
  text_eq, text_length, contains, trim,
}
use budget_app.Editors.LongText.{show_text}
use budget_app.Js.{Number, Value, undefined, str, num, bool, Row, put, to_string, loose_eq}

-- `$input.val()` and `defaultValue`.
pub record Field (N : Type 0) : Type 0 where
  pub text : String
  pub default_value : Value N

-- The result of `validate()`.
pub record Verdict : Type 0 where
  pub valid : Bool
  pub msg : Option String

abbrev pub passed : Verdict
passed = record { valid = true; msg = none }

abbrev pub refused : String → Verdict
refused s = record { valid = false; msg = some s }

-- What the grid calls of an editor. `validate` may change the field.
pub record Editor (N : Type 0) : Type 0 where
  pub load_value : Row N → ℕ → Field N
  pub serialize_value : Field N → Value N
  pub is_value_changed : Field N → Bool
  pub validate : Field N → Verdict × Field N

-- The element that `init` puts on the page: its attribute `maxlength`, and whether its handler keeps
-- the left and right keys from the grid.
pub record Input : Type 0 where
  pub max_length : Option ℕ
  pub keeps_arrows : Bool

abbrev pub auto_attributes : Input
auto_attributes = record { max_length = none; keeps_arrows = false }

abbrev pub integer_attributes : Input
integer_attributes = record { max_length = some 6; keeps_arrows = true }

abbrev pub long_text_attributes : Input
long_text_attributes = record { max_length = some 140; keeps_arrows = false }

abbrev pub float_attributes : Input
float_attributes = record { max_length = some 9; keeps_arrows = true }

abbrev pub gmemori_attributes : Input
gmemori_attributes = record { max_length = some 6; keeps_arrows = true }

abbrev pub po_number_attributes : Input
po_number_attributes = record { max_length = some 12; keeps_arrows = true }

abbrev pub percentage_allocation_attributes : Input
percentage_allocation_attributes = record { max_length = some 5; keeps_arrows = true }

-- The user can type no more than the element takes.
abbrev pub Fits : Input → String → Type 0
Fits input s = elim input.max_length [ none ↦ Unit {0} | some k ↦ text_length s ≤ k ]

-- The editors by the names that the columns use.
pub data Kind : Type 0 where
  auto : Kind
  integer : Kind
  long_text : Kind
  float_text : Kind
  gmemori_text : Kind
  po_number_text : Kind
  percentage_allocation_text : Kind

-- A field of one line drops line ends.
unfoldable pub one_line : String → String
one_line [] = []
one_line (c ∷ s) = let rest = one_line s in if code c == 10 || code c == 13 then rest else c ∷ rest

module _ {N : Type 0} where
  -- `item[args.column.field] = state`
  unfoldable pub apply_value : Row N → ℕ → Value N → Row N
  apply_value item field state = put item field state

  abbrev pub is_undefined : Value N → Bool
  is_undefined undefined = true
  is_undefined _ = false

module _ {N : Type 0} ⦃n : Number N⦄ where
  abbrev pub is_nan : N → Bool
  is_nan x = not (n.eq x x)

  -- `x || 0`
  abbrev pub or_zero : N → N
  or_zero x = if is_nan x || n.eq x (n.of_nat 0) then n.of_nat 0 else x

  -- `v || ""`
  unfoldable pub or_blank : Value N → Value N
  or_blank undefined = str ""
  or_blank (str s) = str s
  or_blank (num x) = if is_nan x || n.eq x (n.of_nat 0) then str "" else num x
  or_blank (bool b) = if b then bool b else str ""

  -- `$input.val(v)`, as `$input.val()` then gives it; a missing value is shown as nothing.
  unfoldable pub shown : Value N → String
  unfolding one_line
  shown undefined = ""
  shown v = one_line (to_string v)

  unfoldable pub opened : Value N → Field N
  unfolding shown
  opened v = record { text = shown v; default_value = v }

  -- `(!($input.val() == "" && defaultValue == null)) && ($input.val() != defaultValue)`
  unfoldable pub is_changed : Field N → Bool
  unfolding loose_eq
  is_changed f =
      not (text_eq f.text "" && is_undefined f.default_value)
      && not (loose_eq (str f.text) f.default_value)

  -- A field of many lines shows a text as it is; when the grid opens the editor it calls `show`
  -- after `loadValue`, which puts the markup back.
  unfoldable pub opened_long : Value N → Field N
  unfolding show_text
  opened_long v = record {
    text = show_text (if is_undefined v then "" else to_string v);
    default_value = v;
  }

  unfoldable pub load_plain : Row N → ℕ → Field N
  unfolding opened
  load_plain item field = opened (item field)

  -- The project owners and the brands: a text, with the column's own validator if it has one.
  unfoldable pub auto_editor : Option (String → Verdict) → Editor N
  unfolding opened or_blank is_changed
  auto_editor validator = record {
    load_value = λ item field. opened (or_blank (item field));
    serialize_value = λ f. str f.text;
    is_value_changed = is_changed;
    validate = λ f. elim validator [
      | none ↦ (passed, f)
      | some check ↦ (if (check f.text).valid then passed else check f.text, f)
    ];
  }

  -- The units.
  unfoldable pub integer_editor : Editor N
  unfolding load_plain is_changed
  integer_editor = record {
    load_value = load_plain;
    serialize_value = λ f. num (or_zero (n.parse_int 10 f.text));
    is_value_changed = is_changed;
    validate = λ f.
        let x = n.to_number f.text in
        (
          if is_nan x || n.lt x (n.of_nat 0) || n.lt (n.of_nat 999_999) x
              then refused "Please enter a valid integer between 0 - 999,999"
              else passed,
          f,
        );
  }

  -- The remarks.
  unfoldable pub long_text_editor : Editor N
  unfolding is_changed opened_long
  long_text_editor = record {
    load_value = λ item field. opened_long (item field);
    serialize_value = λ f. str f.text;
    is_value_changed = is_changed;
    validate = λ f. (passed, f);
  }

  -- The months; a refused entry is replaced by the value that the row has.
  unfoldable pub float_editor : Editor N
  unfolding load_plain is_changed shown
  float_editor = record {
    load_value = load_plain;
    serialize_value = λ f. num (or_zero (n.parse_float (trim f.text)));
    is_value_changed = is_changed;
    validate = λ f.
        if is_nan (n.to_number f.text)
        then (
          refused "Please enter a valid decimal number.",
          record f { text = shown f.default_value },
        )
        else (passed, f);
  }

  -- The identifiers of projects.
  unfoldable pub gmemori_editor : Editor N
  unfolding opened is_changed loose_eq
  gmemori_editor = record {
    load_value = λ item field.
        opened (if loose_eq (item field) (num (n.of_nat 0)) then str "" else item field);
    serialize_value = λ f. num (or_zero (n.parse_int 0 (trim f.text)));
    is_value_changed = is_changed;
    validate = λ f. (
      if not (text_eq f.text "")
            && (is_nan (n.to_number f.text)
                || ltb (text_length (trim f.text)) 6
                || contains f.text ".")
          then refused "Please enter 6 digit integer."
          else passed,
      f,
    );
  }

  unfoldable pub po_number_editor : Editor N
  unfolding load_plain is_changed
  po_number_editor = record {
    load_value = load_plain;
    serialize_value = λ f. num (or_zero (n.parse_int 10 f.text));
    is_value_changed = is_changed;
    validate = λ f. (
      if not (text_eq f.text "") && (is_nan (n.to_number f.text) || contains f.text ".")
          then refused "Please enter a valid integer"
          else passed,
      f,
    );
  }

  unfoldable pub percentage_allocation_editor : Editor N
  unfolding load_plain is_changed
  percentage_allocation_editor = record {
    load_value = load_plain;
    serialize_value = λ f. num (or_zero (n.parse_float f.text));
    is_value_changed = is_changed;
    validate = λ f. (
      if is_nan (n.to_number f.text) then refused "Please enter a valid decimal number" else passed,
      f,
    );
  }

  unfoldable pub editor_of : Option (String → Verdict) → Kind → Editor N
  unfolding auto_editor integer_editor long_text_editor float_editor gmemori_editor po_number_editor
      percentage_allocation_editor
  editor_of validator auto = auto_editor validator
  editor_of validator integer = integer_editor
  editor_of validator long_text = long_text_editor
  editor_of validator float_text = float_editor
  editor_of validator gmemori_text = gmemori_editor
  editor_of validator po_number_text = po_number_editor
  editor_of validator percentage_allocation_text = percentage_allocation_editor
