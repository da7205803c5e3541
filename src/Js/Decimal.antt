-- ===== src/Js/Decimal.antt =====
-- A number type that evaluates: decimals to six places, rounded half up, and NaN (`none`). It stands
-- for JavaScript's in the tests only, where its answers can differ from those of doubles in the last
-- place, as half of 2.01 does when it is printed with two places.
use Prim.Native.Char.{code}
use Prim.Native.String.{[], ◌∷◌, ◌++◌}
use budget_app.Base.{
  ℕ, zero, suc, ◌+◌, ◌-◌, ◌*◌, ◌/◌, ◌%◌, ◌≡◌, refl, Bool, true, false, ◌&&◌, String, Option, none,
  some, not, ◌||◌, ltb, leb, ◌==◌, if◌then◌else◌, trim,
}
use budget_app.Base.Int.{ℤ, pos, pos_part, neg_part, ◌+ℤ◌, ◌-ℤ◌, ◌*ℤ◌, ltb_ℤ}
use budget_app.Js.Numbers.{Number}
use budget_app.Js.Values.{loose_eq, is_blank}

abbrev pub Decimal : Type 0
Decimal = Option ℤ

abbrev unit : ℕ
unit = 1_000_000

-- floor((a + b / 2) / b) for a positive b
pub round_div : ℤ → ℕ → ℤ
round_div a b =
    if ltb_ℤ a (pos 0)
    then pos 0 -ℤ pos ((neg_part a + b - b / 2 - 1) / b)
    else pos ((pos_part a + b / 2) / b)

negate_if : Bool → ℤ → ℤ
negate_if true a = pos 0 -ℤ a
negate_if false a = a

digit : ℕ → String
digit d =
    if d == 0
    then "0"
    else if d == 1
    then "1"
    else if d == 2
    then "2"
    else if d == 3
    then "3"
    else if d == 4
    then "4"
    else if d == 5
    then "5"
    else if d == 6
    then "6"
    else if d == 7
    then "7"
    else if d == 8
    then "8"
    else "9"

-- the decimal digits of a number, on enough fuel
digits : ℕ → ℕ → String → String
digits zero n s = s
digits (suc f) n s =
    let s' = digit (n % 10) ++ s in let more = digits f (n / 10) s' in if ltb n 10 then s' else more

print_cents : ℕ → String
print_cents n = digits 40 (n / 100) "" ++ "." ++ digit (n / 10 % 10) ++ digit (n % 10)

pub to_fixed : Decimal → String
to_fixed none = "NaN"
to_fixed (some a) =
    let c = round_div a 10_000 in
    if ltb_ℤ c (pos 0) then "-" ++ print_cents (neg_part c) else print_cents (pos_part c)

-- the digits of a fraction of `n` units of `place`, up to its last digit that is not zero
tail_digits : ℕ → ℕ → ℕ → String
tail_digits zero n place = ""
tail_digits (suc f) n place =
    let more = digit (n / place) ++ tail_digits f (n % place) (place / 10) in
    if n == 0 then "" else more

print_all : ℕ → String
print_all n =
    digits 40 (n / unit) ""
    ++ (if n % unit == 0 then "" else "." ++ tail_digits 6 (n % unit) 100_000)

pub show : Decimal → String
show none = "NaN"
show (some a) = if ltb_ℤ a (pos 0) then "-" ++ print_all (neg_part a) else print_all (pos_part a)

-- the digits after the point, worth `place` millionths each
fraction : String → ℕ → ℕ → ℕ
fraction [] place acc = acc
fraction (c ∷ s) place acc =
    if leb b'0' (code c) && leb (code c) b'9'
    then fraction s (place / 10) (acc + (code c - b'0') * place)
    else acc

-- the digits before the point; `none` when there is no digit
whole : String → Bool → ℕ → Option ℕ
whole [] seen acc = if seen then some (acc * unit) else none
whole (c ∷ s) seen acc =
    if leb b'0' (code c) && leb (code c) b'9'
    then whole s true (acc * 10 + (code c - b'0'))
    else if seen
    then some (acc * unit + (if code c == b'.' then fraction s 100_000 0 else 0))
    else none

signed : Bool → Option ℕ → Decimal
signed neg none = none
signed neg (some a) = some (negate_if neg (pos a))

parse_trimmed : String → Decimal
parse_trimmed [] = none
parse_trimmed (c ∷ s) =
    if code c == b'-' then signed true (whole s false 0) else signed false (whole (c ∷ s) false 0)

pub parse_float : String → Decimal
parse_float s = parse_trimmed (trim s)

is_digit : ℕ → Bool
is_digit c = leb b'0' c && leb c b'9'

-- Whether a text is digits, with a point among them at most once.
is_number : Bool → Bool → String → Bool
is_number point seen [] = seen
is_number point seen (c ∷ s) =
    if is_digit (code c)
    then is_number point true s
    else if code c == b'.' && not point
    then is_number true seen s
    else false

number_trimmed : String → Decimal
number_trimmed [] = some (pos 0)
number_trimmed (c ∷ s) =
    let rest = if code c == b'-' then s else c ∷ s in
    if is_number false false rest then parse_trimmed (c ∷ s) else none

-- `Number("")` is zero, and a text that is not all of it a number is NaN.
pub to_number : String → Decimal
to_number s = number_trimmed (trim s)

-- the number without its fraction
pub truncate : Decimal → Decimal
truncate none = none
truncate (some a) =
    some (negate_if (ltb_ℤ a (pos 0)) (pos ((pos_part a + neg_part a) / unit * unit)))

-- to a whole number, half up
pub whole_part : Decimal → Decimal
whole_part none = none
whole_part (some a) = some (round_div a unit *ℤ pos unit)

hex_digit : ℕ → Option ℕ
hex_digit c =
    if is_digit c
    then some (c - b'0')
    else if leb b'a' c && leb c b'f'
    then some (c - b'a' + 10)
    else if leb b'A' c && leb c b'F'
    then some (c - b'A' + 10)
    else none

hex_digits : String → Bool → ℕ → Decimal
hex_digits [] seen acc = if seen then some (pos (acc * unit)) else none
hex_digits (c ∷ s) seen acc = elim (hex_digit (code c)) [
  | none ↦ if seen then some (pos (acc * unit)) else none
  | some h ↦ hex_digits s true (acc * 16 + h)
]

-- Without a radix, "0x" starts a hexadecimal number.
parse_free : String → Decimal
parse_free (c ∷ d ∷ s) =
    if code c == b'0' && (code d == b'x' || code d == b'X')
    then hex_digits s false 0
    else truncate (parse_trimmed (c ∷ d ∷ s))
parse_free s = truncate (parse_trimmed s)

pub parse_int : ℕ → String → Decimal
parse_int radix s = if radix == 0 then parse_free (trim s) else truncate (parse_float s)

pub lift : (ℤ → ℤ → ℤ) → Decimal → Decimal → Decimal
lift f (some a) (some b) = some (f a b)
lift f _ _ = none

pub compare_by : (ℤ → ℤ → Bool) → Decimal → Decimal → Bool
compare_by f (some a) (some b) = f a b
compare_by f _ _ = false

pub eq_ℤ : ℤ → ℤ → Bool
eq_ℤ a b = (pos_part a == pos_part b) && (neg_part a == neg_part b)

-- Division by zero gives NaN here; the sign follows from the quotient of the magnitudes.
div_ℤ : ℤ → ℤ → Decimal
div_ℤ a b =
    if eq_ℤ b (pos 0)
    then none
    else some (negate_if (ltb_ℤ b (pos 0)) (round_div (a *ℤ pos unit) (pos_part b + neg_part b)))

pub div : Decimal → Decimal → Decimal
div (some a) (some b) = div_ℤ a b
div _ _ = none

instance abbrev pub decimal_number : Number Decimal
decimal_number = record {
  of_nat = λ k. some (pos (k * unit));
  add = lift ◌+ℤ◌;
  sub = lift ◌-ℤ◌;
  mul = lift (λ a b. round_div (a *ℤ b) unit);
  div = div;
  eq = compare_by eq_ℤ;
  lt = compare_by ltb_ℤ;
  parse_float = parse_float;
  to_number = to_number;
  parse_int = parse_int;
  round = whole_part;
  to_fixed = to_fixed;
  show = show;
}

-- Names all that a test by evaluation computes through.
unfoldable pub decimal_runs : Unit {0}
unfolding round_div negate_if digit digits print_cents tail_digits print_all show to_fixed fraction
    whole signed parse_trimmed parse_float is_digit is_number number_trimmed to_number truncate
    whole_part hex_digit hex_digits parse_free parse_int lift compare_by eq_ℤ div_ℤ div trim ◌+ℤ◌
    ◌-ℤ◌ ◌*ℤ◌ loose_eq is_blank
decimal_runs = tt

arithmetic :
    (to_fixed (parse_float " 12.345") ≡ "12.35")
    × (to_fixed (parse_float "-0.5") ≡ "-0.50")
    × (to_fixed (lift ◌-ℤ◌ (parse_float "1.25") (parse_float "2.5")) ≡ "-1.25")
    × (to_fixed (div (parse_float "100") (parse_float "3")) ≡ "33.33")
    × (show (parse_float "-10.250") ≡ "-10.25")
    × (parse_float "abc" ≡ none)
    × (to_number "12abc" ≡ none)
    × (show (to_number " 12.5 ") ≡ "12.5")
    × (show (parse_int 10 "12.5abc") ≡ "12")
    × (show (parse_int 10 "0x1f") ≡ "0")
    × (show (parse_int 0 "0x1f") ≡ "31")
unfolding decimal_runs
arithmetic = (refl, refl, refl, refl, refl, refl, refl, refl, refl, refl, refl)
