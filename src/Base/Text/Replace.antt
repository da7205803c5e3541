-- ===== src/Base/Text/Replace.antt =====
-- Replacing every occurrence of a text, as `s.replace(/pattern/g, text)` does.
use Prim.Native.Nat.{ℕ, zero, suc}
use Prim.Native.Char.{Char, code}
use Prim.Native.String.{String, [], ◌∷◌, ◌++◌}
use mathlib.Core.Path.{◌≡◌, refl}
use mathlib.Core.Logic.{◌≢◌, ◌⊎◌, inl, inr}
use mathlib.Core.Bool.{true, false}
use mathlib.Core.List.{[], ◌∷◌}
use text.Mathlib.TextLemmas.{nil-append, cons-append}
use native.Mathlib.Omega.{arith}
use budget_app.Base.Tests.{◌==◌, if◌then◌else◌, Bool-cases}
use budget_app.Base.Text.{starts, codes}

unfoldable size : String → ℕ
size [] = 0
size (c ∷ s) = suc (size s)

unfoldable pub past_first : String → ℕ
unfolding size
past_first [] = 0
past_first (c ∷ s) = size s

-- `skip` characters of an occurrence are still to be left out.
replace_from : ℕ → String → String → String → String
unfolding starts size past_first
replace_from skip pattern text [] = []
replace_from (suc skip) pattern text (c ∷ s) = replace_from skip pattern text s
replace_from zero pattern text (c ∷ s) =
    let found = text ++ replace_from (past_first pattern) pattern text s in
    let rest = replace_from 0 pattern text s in
    if starts (codes pattern) (code c ∷ codes s) then found else c ∷ rest

-- `s.replace(/pattern/g, text)`, for a pattern that is a text
unfoldable pub replace_all : String → String → String → String
unfolding replace_from
replace_all pattern text s = replace_from 0 pattern text s

runs :
    (replace_all "<" "&lt;" "a<b<" ≡ "a&lt;b&lt;") × (replace_all "&lt;" "<" "a&lt;b&lt;" ≡ "a<b<")
unfolding replace_all starts past_first size
runs = (refl, refl)

abbrev pub entity : Char → String
entity x = "&" ∷ x ∷ "t" ∷ ";" ∷ []

abbrev pub escape : Char → Char → String → String
escape mark x s = replace_all (mark ∷ []) (entity x) s

abbrev pub restore : Char → Char → String → String
restore mark x s = replace_all (entity x) (mark ∷ []) s

four-append : (a b c d : Char) (t : String) → (a ∷ b ∷ c ∷ d ∷ []) ++ t ≡ a ∷ b ∷ c ∷ d ∷ t
four-append a b c d t = simp (cons-append, nil-append)

one-append : (c : Char) (t : String) → (c ∷ []) ++ t ≡ c ∷ t
one-append c t = simp (cons-append, nil-append)

entity-append : (x : Char) (t : String) → entity x ++ t ≡ "&" ∷ x ∷ "t" ∷ ";" ∷ t
entity-append x t = four-append "&" x "t" ";" t

-- A character is escaped or kept.
pub escape-cases :
    (mark x c : Char) (s : String)
    → ((code c ≡ code mark) × (escape mark x (c ∷ s) ≡ "&" ∷ x ∷ "t" ∷ ";" ∷ escape mark x s))
      ⊎ ((code c ≢ code mark) × (escape mark x (c ∷ s) ≡ c ∷ escape mark x s))
unfolding replace_all starts past_first size
escape-cases mark x c s = elim (Bool-cases (code mark == code c)) [
  | inl e ↦ inl (ground arith, rw e (entity-append x _))
  | inr e ↦ inr (ground arith, rw e)
]

-- An entity is restored, and what is none is kept.
pub restore_entity :
    (mark x : Char) (s : String)
    → restore mark x ("&" ∷ x ∷ "t" ∷ ";" ∷ s) ≡ mark ∷ restore mark x s
unfolding replace_all starts past_first size
restore_entity mark x s =
    let same : (code x == code x) ≡ true = ground arith in rw same (one-append mark _)

pub restore_other :
    (mark x c : Char) (s : String)
    → starts (codes (entity x)) (code c ∷ codes s) ≡ false
    → restore mark x (c ∷ s) ≡ c ∷ restore mark x s
unfolding replace_all
restore_other mark x c s e = rw e
