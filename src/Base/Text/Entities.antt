-- ===== src/Base/Text/Entities.antt =====
-- Escaping a character as an entity, `&lt;` for `<`, and restoring it.
use Prim.Native.Nat.{ℕ}
use Prim.Native.Char.{Char, code}
use Prim.Native.String.{String, [], ◌∷◌}
use mathlib.Core.Path.{◌≡◌, refl, sym, ap, ap₂, ◌∙◌}
use text.Mathlib.TextEquality.{Char-path}
use mathlib.Core.Logic.{◌≢◌, inl, inr}
use mathlib.Core.Bool.{false}
use mathlib.Core.List.{List, [], ◌∷◌}
use native.Mathlib.Omega.{arith}
use budget_app.Base.Lists.{All}
use budget_app.Base.Tests.{◌==◌, Bool-cases}
use budget_app.Base.Text.{starts, within, codes, contains}
use budget_app.Base.Text.Replace.{
  replace_all, entity, escape, restore, escape-cases, restore_entity, restore_other,
}
use budget_app.Base.Text.Split.{Lacks}

-- A text of other characters begins an escaped text exactly if it begins the text itself.
starts-escape :
    (mark x : Char) (p : List ℕ) (s : String)
    → All (λ c. ((c == b'&') ≡ false) × ((c == code mark) ≡ false)) p
    → starts p (codes (escape mark x s)) ≡ starts p (codes s)
unfolding starts replace_all
starts-escape mark x [] s h = refl
starts-escape mark x (q ∷ p) [] h = refl
starts-escape mark x (q ∷ p) (c ∷ s) ((no_amp, no_mark), h) = elim (escape-cases mark x c s) [
  | inl (is_mark, e) ↦
      let a : (q == b'&') ≡ false = ground arith in
      let b : (q == code c) ≡ false = ground arith in rw e (rw (a, b))
  | inr (other, e) ↦ rw e (rw (starts-escape mark x p s h))
]

-- Escaping makes no entity of another character, and destroys none.
pub within-escape :
    (mark x y : Char) (s : String)
    → All (λ c. ((c == b'&') ≡ false) × ((c == code mark) ≡ false)) (code y ∷ b't' ∷ b';' ∷ [])
    → (code x == code y) ≡ false
    → (code mark == b'&') ≡ false
    → (code x == b'&') ≡ false
    → contains (escape mark x s) (entity y) ≡ contains s (entity y)
unfolding contains within starts replace_all
within-escape mark x y [] h no_x no_mark no_amp = refl
within-escape mark x y (c ∷ s) h no_x no_mark no_amp =
    let rest = within-escape mark x y s h no_x no_mark no_amp in
    elim (escape-cases mark x c s) [
      | inl (is_mark, e) ↦
          let a : (b'&' == code c) ≡ false = ground arith in
          let b : (code y == code x) ≡ false = ground arith in
          let d : (b'&' == code x) ≡ false = ground arith in rw e (rw (a, b, d) rest)
      | inr (other, e) ↦ rw e (rw (starts-escape mark x (code y ∷ b't' ∷ b';' ∷ []) s h, rest))
    ]

-- Restoring undoes escaping, if the entity did not stand in the text.
pub restore-escape :
    (mark x : Char) (s : String)
    → All (λ c. ((c == b'&') ≡ false) × ((c == code mark) ≡ false)) (code x ∷ b't' ∷ b';' ∷ [])
    → (code mark == b'&') ≡ false
    → contains s (entity x) ≡ false
    → restore mark x (escape mark x s) ≡ s
unfolding contains within starts replace_all
restore-escape mark x [] h no_mark absent = refl
restore-escape mark x (c ∷ s) h no_mark absent =
    let here : starts (codes (entity x)) (code c ∷ codes s) ≡ false = ground (arith, absent) in
    let rest = restore-escape mark x s h no_mark (ground (arith, absent)) in
    elim (escape-cases mark x c s) [
      | inl (is_mark, e) ↦
          let same = Char-path mark c (sym is_mark) in
          ap (restore mark x) e
          ∙ (restore_entity mark x (escape mark x s)
              ∙ ap₂ {A = Char} {B = String} (λ a r. a ∷ r) same rest)
      | inr (other, e) ↦
          let none_there : starts (codes (entity x)) (code c ∷ codes (escape mark x s)) ≡ false =
            rw (starts-escape mark x (code x ∷ b't' ∷ b';' ∷ []) s h) here in
          rw e (
            restore_other mark x c (escape mark x s) none_there ∙ ap {B = String} (λ r. c ∷ r) rest)
    ]

-- No escaped character is left, and none is made.
pub escape-Lacks :
    (mark x : Char) (s : String)
    → All (λ c. (c == code mark) ≡ false) (b'&' ∷ code x ∷ b't' ∷ b';' ∷ [])
    → Lacks (code mark) (escape mark x s)
unfolding replace_all
escape-Lacks mark x [] h = tt
escape-Lacks mark x (c ∷ s) h =
    let rest = escape-Lacks mark x s h in
    elim (escape-cases mark x c s) [
      | inl (is_mark, e) ↦ let (h1, (h2, (h3, (h4, _)))) = h in rw e (h1, (h2, (h3, (h4, rest))))
      | inr (other, e) ↦ rw e (ground arith, rest)
    ]

pub escape-keeps_Lacks :
    (mark x : Char) (m : ℕ) (s : String)
    → All (λ c. (c == m) ≡ false) (b'&' ∷ code x ∷ b't' ∷ b';' ∷ [])
    → Lacks m s
    → Lacks m (escape mark x s)
unfolding replace_all
escape-keeps_Lacks mark x m [] h k = tt
escape-keeps_Lacks mark x m (c ∷ s) h (k, ks) =
    let rest = escape-keeps_Lacks mark x m s h ks in
    elim (escape-cases mark x c s) [
      | inl (is_mark, e) ↦ let (h1, (h2, (h3, (h4, _)))) = h in rw e (h1, (h2, (h3, (h4, rest))))
      | inr (other, e) ↦ rw e (k, rest)
    ]

-- A text without the character is left as it is.
pub escape_of_Lacks : (mark x : Char) (s : String) → Lacks (code mark) s → escape mark x s ≡ s
unfolding replace_all
escape_of_Lacks mark x [] h = refl
escape_of_Lacks mark x (c ∷ s) (k, h) = elim (escape-cases mark x c s) [
  | inl (is_mark, e) ↦ ground arith
  | inr (other, e) ↦ e ∙ ap {B = String} (λ r. c ∷ r) (escape_of_Lacks mark x s h)
]

-- Escaping one character passes the entity of another.
escape_entity :
    (mark x y : Char) (s : String)
    → All (λ c. (c == code mark) ≡ false) (b'&' ∷ code y ∷ b't' ∷ b';' ∷ [])
    → escape mark x ("&" ∷ y ∷ "t" ∷ ";" ∷ s) ≡ "&" ∷ y ∷ "t" ∷ ";" ∷ escape mark x s
unfolding replace_all starts
escape_entity mark x y s (h1, (h2, (h3, (h4, _)))) =
    let a : (code mark == b'&') ≡ false = ground (arith, h1) in
    let b : (code mark == code y) ≡ false = ground (arith, h2) in
    let c : (code mark == b't') ≡ false = ground (arith, h3) in
    let d : (code mark == b';') ≡ false = ground (arith, h4) in rw (a, b, c, d)

escape_marked :
    (mark x c : Char) (s : String)
    → code c ≡ code mark
    → escape mark x (c ∷ s) ≡ "&" ∷ x ∷ "t" ∷ ";" ∷ escape mark x s
escape_marked mark x c s is_mark = elim (escape-cases mark x c s) [
  | inl (_, e) ↦ e
  | inr (other, _) ↦ absurd (other is_mark)
]

escape_kept :
    (mark x c : Char) (s : String)
    → code c ≢ code mark
    → escape mark x (c ∷ s) ≡ c ∷ escape mark x s
escape_kept mark x c s other = elim (escape-cases mark x c s) [
  | inl (is_mark, _) ↦ absurd (other is_mark)
  | inr (_, e) ↦ e
]

-- Two characters are escaped in either order.
pub escape_comm :
    (mark x mark' y : Char) (s : String)
    → (code mark == code mark') ≡ false
    → All (λ c. (c == code mark) ≡ false) (b'&' ∷ code y ∷ b't' ∷ b';' ∷ [])
    → All (λ c. (c == code mark') ≡ false) (b'&' ∷ code x ∷ b't' ∷ b';' ∷ [])
    → escape mark' y (escape mark x s) ≡ escape mark x (escape mark' y s)
unfolding replace_all
escape_comm mark x mark' y [] d h h' = refl
escape_comm mark x mark' y (c ∷ s) d h h' =
    let rest = escape_comm mark x mark' y s d h h' in
    elim (Bool-cases (code c == code mark)) [
      | inl e ↦
          let here : code c ≡ code mark = ground arith in
          let there : code c ≢ code mark' = ground arith in
          ap (escape mark' y) (escape_marked mark x c s here)
          ∙ (escape_entity mark' y x (escape mark x s) h'
              ∙ (ap {B = String} (λ r. "&" ∷ x ∷ "t" ∷ ";" ∷ r) rest
                  ∙ (sym (escape_marked mark x c (escape mark' y s) here)
                      ∙ ap (escape mark x) (sym (escape_kept mark' y c s there)))))
      | inr e ↦
          let here : code c ≢ code mark = ground arith in
          ap (escape mark' y) (escape_kept mark x c s here)
          ∙ (elim (Bool-cases (code c == code mark')) [
            | inl e' ↦
                let there : code c ≡ code mark' = ground arith in
                escape_marked mark' y c (escape mark x s) there
                ∙ (ap {B = String} (λ r. "&" ∷ y ∷ "t" ∷ ";" ∷ r) rest
                    ∙ (sym (escape_entity mark x y (escape mark' y s) h)
                        ∙ ap (escape mark x) (sym (escape_marked mark' y c s there))))
            | inr e' ↦
                let there : code c ≢ code mark' = ground arith in
                escape_kept mark' y c (escape mark x s) there
                ∙ (ap {B = String} (λ r. c ∷ r) rest
                    ∙ (sym (escape_kept mark x c (escape mark' y s) here)
                        ∙ ap (escape mark x) (sym (escape_kept mark' y c s there))))
          ])
    ]
