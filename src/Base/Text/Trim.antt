-- ===== src/Base/Text/Trim.antt =====
-- What `trim` leaves, and the keys `owner:brand` that are built from trimmed texts.
use Prim.Native.Char.{code}
use Prim.Native.String.{String, [], ◌∷◌, ◌++◌, count}
use mathlib.Core.Path.{◌≡◌, refl, sym, ap, ◌∙◌}
use mathlib.Core.Logic.{◌≢◌, ◌⊎◌, inl, inr}
use mathlib.Core.Bool.{false, ◌&&◌}
use native.Mathlib.Omega.{arith}
use Prim.Native.Nat.{◌<◌}
use text.Mathlib.TextLemmas.{
  length-nil, length-cons, nil-append, cons-append, append-ne-nil_of_right_ne-nil, cons-ne-nil,
}
use budget_app.Base.Tests.{Bool-cases}
use budget_app.Base.Text.{is_space, text_eq, text_eq_iff, trim_start, trim_end, trim, concat}

-- The text does not begin with white space.
abbrev StartsInk : String → Type 0
StartsInk [] = Unit
StartsInk (c ∷ s) = is_space (code c) ≡ false

trim_start-StartsInk : (s : String) → StartsInk (trim_start s)
unfolding trim_start
trim_start-StartsInk [] = tt
trim_start-StartsInk (c ∷ s) = elim (Bool-cases (is_space (code c))) [
  | inl e ↦ rw e (trim_start-StartsInk s)
  | inr e ↦ rw e e
]

trim_start_of_StartsInk : (s : String) → StartsInk s → trim_start s ≡ s
unfolding trim_start
trim_start_of_StartsInk [] h = refl
trim_start_of_StartsInk (c ∷ s) h = rw h

trim_end-StartsInk : (s : String) → StartsInk s → StartsInk (trim_end s)
unfolding trim_end
trim_end-StartsInk [] h = tt
trim_end-StartsInk (c ∷ s) h =
    rw h (elim (Bool-cases (text_eq (trim_end s) "")) [ inl e ↦ rw e h | inr e ↦ rw e h ])

trim_end_idem : (s : String) → trim_end (trim_end s) ≡ trim_end s
unfolding trim_end
trim_end_idem [] = refl
trim_end_idem (c ∷ s) = elim (Bool-cases (text_eq (trim_end s) "" && is_space (code c))) [
  | inl e ↦ rw e
  | inr e ↦ rw e (rw (trim_end_idem s, e))
]

text_eq_of_ne : (s t : String) → s ≢ t → text_eq s t ≡ false
text_eq_of_ne s t h = ground (arith, text_eq_iff s t)

trim_end-append : (s t : String) → trim_end t ≢ "" → trim_end (s ++ t) ≡ s ++ trim_end t
unfolding trim_end
trim_end-append [] t h = simp nil-append
trim_end-append (c ∷ s) t h =
    let rest = append-ne-nil_of_right_ne-nil s h in
    simp (cons-append, trim_end-append s t h, text_eq_of_ne _ _ rest)

StartsInk-append : (s t : String) → StartsInk s → StartsInk t → StartsInk (s ++ t)
StartsInk-append [] t h k = rw nil-append k
StartsInk-append (c ∷ s) t h k = rw cons-append h

colon-append : (s : String) → ":" ++ s ≡ ":" ∷ s
colon-append s = cons-append ":" [] s ∙ ap {B = String} (λ r. ":" ∷ r) (nil-append s)

trim_end-colon : (s : String) → trim_end (":" ++ s) ≡ ":" ++ trim_end s
unfolding trim_end is_space
trim_end-colon s = simp colon-append (ground arith)

-- A key of two trimmed texts with a colon between them is trimmed itself, and is not empty.
pub trim-key :
    (o b : String)
    → (trim (concat (trim o) (concat ":" (trim b))) ≡ concat (trim o) (concat ":" (trim b)))
      × (concat (trim o) (concat ":" (trim b)) ≢ "")
unfolding trim is_space
trim-key o b =
    let colon : trim_end (":" ++ trim b) ≡ ":" ++ trim b =
      trim_end-colon (trim b) ∙ ap (λ r. ":" ++ r) (trim_end_idem (trim_start b)) in
    let full : ":" ++ trim b ≢ "" =
      λ e. cons-ne-nil ":" (trim b) (sym (colon-append (trim b)) ∙ e) in
    let ink = trim_end-StartsInk (trim_start o) (trim_start-StartsInk o) in
    let begins : StartsInk (":" ++ trim b) = rw colon-append refl in
    let start = trim_start_of_StartsInk _ (StartsInk-append (trim o) (":" ++ trim b) ink begins) in
    let whole = trim_end-append (trim o) (":" ++ trim b) (λ e. full (sym colon ∙ e)) in
    (
      ap trim_end start ∙ whole ∙ ap (λ r. trim o ++ r) colon,
      append-ne-nil_of_right_ne-nil (trim o) full,
    )

trim_start-cases : (s : String) → (count (trim_start s) < count s) ⊎ (trim_start s ≡ s)
unfolding trim_start
trim_start-cases [] = inr refl
trim_start-cases (c ∷ s) = elim (Bool-cases (is_space (code c))) [
  | inl e ↦ inl (
      rw e (elim (trim_start-cases s) [
        | inl shorter ↦ omega (arith, shorter, length-cons c s)
        | inr same ↦ rw same (omega (arith, length-cons c s))
      ]))
  | inr e ↦ inr (rw e)
]

trim_end-cases : (s : String) → (count (trim_end s) < count s) ⊎ (trim_end s ≡ s)
unfolding trim_end
trim_end-cases [] = inr refl
trim_end-cases (c ∷ s) = elim (Bool-cases (text_eq (trim_end s) "" && is_space (code c))) [
  | inl e ↦ inl (rw e (omega (arith, length-cons c s, length-nil)))
  | inr e ↦ elim (trim_end-cases s) [
    | inl shorter ↦ inl (rw e (omega (arith, shorter, length-cons c s, length-cons c (trim_end s))))
    | inr same ↦ inr (rw e (rw same))
  ]
]

-- Trimming makes a text shorter or leaves it as it is.
pub trim-cases : (s : String) → (count (trim s) < count s) ⊎ (trim s ≡ s)
unfolding trim
trim-cases s = elim (trim_start-cases s) [
  | inl shorter ↦ inl (elim (trim_end-cases (trim_start s)) [
    | inl shorter' ↦ omega (arith, shorter, shorter')
    | inr same ↦ rw same shorter
  ])
  | inr same ↦ rw same (trim_end-cases s)
]
