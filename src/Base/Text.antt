-- ===== src/Base/Text.antt =====
-- What the scripts do with text: searching, trimming, splitting and lower-casing.
-- A text is a sequence of code points. White space is that of ASCII, and so are the letters that
-- `toLowerCase` changes.
pub mod Trim
pub mod Split
pub mod Replace
pub mod Entities
pub mod Prefix
pub mod Parts
use Prim.Native.Nat.{ℕ, ◌+◌}
use Prim.Native.Char.{code}
use Prim.Native.String.{String, [], ◌∷◌, ◌++◌, count}
use mathlib.Core.Path.{◌≡◌, refl}
use mathlib.Core.Logic.{◌↔◌}
use mathlib.Core.Bool.{Bool, true, false, ◌&&◌, ◌||◌}
use mathlib.Core.Option.{Option, none, some}
use mathlib.Core.List.{List, [], ◌∷◌, map}
use text.Mathlib.Text.{◌==◌ as same}
use text.Mathlib.TextEquality.{eq_iff}
use text.Mathlib.TextPositions.{eq_refl}
use budget_app.Base.Tests.{leb, ◌==◌, if◌then◌else◌}

-- `s == t` on two texts
abbrev pub text_eq : String → String → Bool
text_eq s t = same s t

pub text_eq_iff : (s t : String) → (text_eq s t ≡ true) ↔ (s ≡ t)
text_eq_iff s t = eq_iff s t

pub text_eq_refl : (s : String) → text_eq s s ≡ true
text_eq_refl s = eq_refl s

-- `s + t` on two texts
abbrev pub concat : String → String → String
concat s t = s ++ t

abbrev pub codes : String → List ℕ
codes [] = []
codes (c ∷ s) = code c ∷ codes s

is_space : ℕ → Bool
is_space c = (leb 9 c && leb c 13) || c == 32

pub starts : List ℕ → List ℕ → Bool
starts [] s = true
starts (c ∷ n) [] = false
starts (c ∷ n) (d ∷ s) = (c == d) && starts n s

pub within : List ℕ → List ℕ → Bool
within n [] = starts n []
within n (d ∷ s) = starts n (d ∷ s) || within n s

to_lower : ℕ → ℕ
to_lower c = if leb b'A' c && leb c b'Z' then c + 32 else c

-- `hay.indexOf(needle) != -1`
unfoldable pub contains : String → String → Bool
unfolding within starts
contains hay needle = within (codes needle) (codes hay)

-- `hay.toLowerCase().indexOf(needle.toLowerCase()) != -1`
unfoldable pub contains_fold : String → String → Bool
unfolding within starts to_lower
contains_fold hay needle = within (map to_lower (codes needle)) (map to_lower (codes hay))

-- `hay.toLowerCase().indexOf(needle.toLowerCase()) === 0`
unfoldable pub starts_fold : String → String → Bool
unfolding starts to_lower
starts_fold hay needle = starts (map to_lower (codes needle)) (map to_lower (codes hay))

-- `s.toLowerCase() == t.toLowerCase()`, letter by letter
same_codes : List ℕ → List ℕ → Bool
same_codes [] [] = true
same_codes (c ∷ s) (d ∷ t) = (c == d) && same_codes s t
same_codes _ _ = false

unfoldable pub eq_fold : String → String → Bool
unfolding same_codes to_lower
eq_fold s t = same_codes (map to_lower (codes s)) (map to_lower (codes t))

trim_start : String → String
trim_start [] = []
trim_start (c ∷ s) = if is_space (code c) then trim_start s else c ∷ s

trim_end : String → String
trim_end [] = []
trim_end (c ∷ s) = let r = trim_end s in if text_eq r "" && is_space (code c) then [] else c ∷ r

-- `s.trim()`
unfoldable pub trim : String → String
unfolding trim_start trim_end is_space
trim s = trim_end (trim_start s)

-- `s.split(".")[0]`
unfoldable pub before : ℕ → String → String
before sep [] = []
before sep (c ∷ s) = if code c == sep then [] else c ∷ before sep s

-- the number of code units of a text of the Basic Multilingual Plane, `s.length`
abbrev pub text_length : String → ℕ
text_length s = count s

-- tests
dotted :
    (contains "12.3" "." ≡ true)
    × (contains "123" "." ≡ false)
    × (contains_fold "My Smart WBS" "smart wbs" ≡ true)
    × (trim "  a b \t" ≡ "a b")
    × (before b'.' "307673.2" ≡ "307673")
    × (eq_fold "Total" "total" ≡ true)
unfolding contains contains_fold trim before eq_fold
dotted = (refl, refl, refl, refl, refl, refl)

pub contains-nil : (s : String) → contains s "" ≡ true
unfolding contains
contains-nil [] = refl
contains-nil (c ∷ s) = refl

-- `s.split(sep)`, for a separator of one character
unfoldable pub split : ℕ → String → List String
split sep [] = [] ∷ []
split sep (c ∷ s) =
    let rest = split sep s in
    if code c == sep then [] ∷ rest else (elim rest [ [] ↦ (c ∷ []) ∷ [] | r ∷ rs ↦ (c ∷ r) ∷ rs ])

-- `arr.join()`
unfoldable pub comma_join : List String → String
comma_join [] = ""
comma_join (s ∷ []) = s
comma_join (s ∷ ss) = concat s (concat "," (comma_join ss))

-- `s.split("::")[1]`: what stands between the first two occurrences, if there is one.
to_colons : String → String
to_colons [] = []
to_colons (c ∷ []) = c ∷ []
to_colons (c ∷ d ∷ s) =
    let rest = to_colons (d ∷ s) in if code c == b':' && code d == b':' then [] else c ∷ rest

unfoldable pub after_colons : String → Option String
unfolding to_colons
after_colons [] = none
after_colons (c ∷ []) = none
after_colons (c ∷ d ∷ s) =
    let later = after_colons (d ∷ s) in
    if code c == b':' && code d == b':' then some (to_colons s) else later

colon_runs : (after_colons "Launch :: 307 :: x" ≡ some " 307 ") × (after_colons "Launch" ≡ none)
unfolding after_colons
colon_runs = (refl, refl)
