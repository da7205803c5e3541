-- ===== src/Base/Order.antt =====
-- The order in which `sort()` puts texts, and what a comparison of neighbours finds after it.
use Prim.Native.Char.{code}
use Prim.Native.String.{String, [], ◌∷◌}
use mathlib.Core.Path.{◌≡◌, refl, sym, ap₂}
use mathlib.Core.Logic.{◌≢◌, ◌↔◌, inl, inr}
use mathlib.Core.Bool.{Bool, true, false, ◌||◌}
use mathlib.Core.List.{List, [], ◌∷◌}
use native.Mathlib.Omega.{arith}
use text.Mathlib.TextEquality.{Char-path}
use budget_app.Base.Tests.{ltb, ◌==◌, if◌then◌else◌, Bool-cases}
use budget_app.Base.Lists.{All}
use budget_app.Base.Text.{text_eq, text_eq_iff}

-- Not after, letter by letter.
text_le : String → String → Bool
text_le [] t = true
text_le (c ∷ s) [] = false
text_le (c ∷ s) (d ∷ t) =
    if ltb (code c) (code d) then true else if code c == code d then text_le s t else false

insert : String → List String → List String
insert x [] = x ∷ []
insert x (y ∷ ys) = if text_le x y then x ∷ y ∷ ys else y ∷ insert x ys

-- `xs.sort()`
unfoldable pub sort : List String → List String
unfolding insert text_le
sort [] = []
sort (x ∷ xs) = insert x (sort xs)

text_le_antisym : (s t : String) → text_le s t ≡ true → text_le t s ≡ true → s ≡ t
unfolding text_le
text_le_antisym [] [] p q = refl
text_le_antisym [] (d ∷ t) p q = cc
text_le_antisym (c ∷ s) [] p q = cc
text_le_antisym (c ∷ s) (d ∷ t) p q =
    let same : code c ≡ code d = ground arith in
    ap₂ {C = String} ◌∷◌ (Char-path c d same) (text_le_antisym s t (ground arith) (ground arith))

text_le_trans : (s t u : String) → text_le s t ≡ true → text_le t u ≡ true → text_le s u ≡ true
unfolding text_le
text_le_trans [] t u p q = refl
text_le_trans (c ∷ s) [] u p q = cc
text_le_trans (c ∷ s) (d ∷ t) [] p q = cc
text_le_trans (c ∷ s) (d ∷ t) (e ∷ u) p q = ground (arith, text_le_trans s t u)

text_le_total : (s t : String) → text_le s t ≡ false → text_le t s ≡ true
unfolding text_le
text_le_total [] t p = cc
text_le_total (c ∷ s) [] p = refl
text_le_total (c ∷ s) (d ∷ t) p = ground (arith, text_le_total s t)

abbrev IsBelow : String → List String → Type 0
IsBelow x = All (λ y. text_le x y ≡ true)

abbrev IsSorted : List String → Type 0
IsSorted [] = Unit
IsSorted (x ∷ xs) = IsBelow x xs × IsSorted xs

-- No two places hold the same text.
abbrev pub IsNew : String → List String → Type 0
IsNew x = All (λ y. x ≢ y)

abbrev pub Distinct : List String → Type 0
Distinct [] = Unit
Distinct (x ∷ xs) = IsNew x xs × Distinct xs

IsBelow-trans : (x y : String) (ys : List String) → text_le x y ≡ true → IsBelow y ys → IsBelow x ys
IsBelow-trans x y [] p h = tt
IsBelow-trans x y (z ∷ ys) p (q, h) = (text_le_trans x y z p q, IsBelow-trans x y ys p h)

IsBelow-insert :
    (z x : String) (ys : List String) → text_le z x ≡ true → IsBelow z ys → IsBelow z (insert x ys)
unfolding insert
IsBelow-insert z x [] p h = (p, tt)
IsBelow-insert z x (y ∷ ys) p (q, h) = ground (arith, IsBelow-insert z x ys p h)

insert-IsSorted : (x : String) (ys : List String) → IsSorted ys → IsSorted (insert x ys)
unfolding insert
insert-IsSorted x [] h = (tt, tt)
insert-IsSorted x (y ∷ ys) (b, h) = elim (Bool-cases (text_le x y)) [
  | inl p ↦ rw p ((p, IsBelow-trans x y ys p b), (b, h))
  | inr p ↦ rw p (IsBelow-insert y x ys (text_le_total x y p) b, insert-IsSorted x ys h)
]

sort-IsSorted : (xs : List String) → IsSorted (sort xs)
unfolding sort
sort-IsSorted [] = tt
sort-IsSorted (x ∷ xs) = insert-IsSorted x (sort xs) (sort-IsSorted xs)

IsNew-insert : (z x : String) (ys : List String) → IsNew z (insert x ys) ↔ ((z ≢ x) × IsNew z ys)
unfolding insert
IsNew-insert z x [] = (λ h. h, λ h. h)
IsNew-insert z x (y ∷ ys) = elim (Bool-cases (text_le x y)) [
  | inl p ↦ rw p (λ h. (h.0, h.1), λ h. (h.0, h.1))
  | inr p ↦
      let (to, from) = IsNew-insert z x ys in
      rw p (λ h. ((to h.1).0, (h.0, (to h.1).1)), λ h. (h.1.0, from (h.0, h.1.1)))
]

Distinct-insert :
    (x : String) (ys : List String) → Distinct (insert x ys) ↔ (IsNew x ys × Distinct ys)
unfolding insert
Distinct-insert x [] = (λ h. h, λ h. h)
Distinct-insert x (y ∷ ys) = elim (Bool-cases (text_le x y)) [
  | inl p ↦ rw p (λ h. h, λ h. h)
  | inr p ↦
      let (to, from) = Distinct-insert x ys in
      let (to', from') = IsNew-insert y x ys in
      rw p (
        λ h. (((λ e. (to' h.0).0 (sym e)), (to h.1).0), ((to' h.0).1, (to h.1).1)),
        λ h. (from' ((λ e. h.0.0 (sym e)), h.1.0), from (h.0.1, h.1.1)),
      )
]

Distinct-sort : (xs : List String) → Distinct (sort xs) ↔ Distinct xs
unfolding sort
Distinct-sort [] = (λ h. h, λ h. h)
Distinct-sort (x ∷ xs) =
    let (to, from) = Distinct-insert x (sort xs) in
    let (to', from') = Distinct-sort xs in
    let (fresh, kept) = IsNew-sort x xs in
    (λ h. (fresh (to h).0, to' (to h).1), λ h. from (kept h.0, from' h.1))
  where
    IsNew-sort : (z : String) (ys : List String) → IsNew z (sort ys) ↔ IsNew z ys
    IsNew-sort z [] = (λ h. h, λ h. h)
    IsNew-sort z (y ∷ ys) =
        let (to, from) = IsNew-insert z y (sort ys) in
        let (to', from') = IsNew-sort z ys in
        (λ h. ((to h).0, to' (to h).1), λ h. from (h.0, from' h.1))

-- Whether two neighbours are equal.
unfoldable pub has_twins : List String → Bool
has_twins [] = false
has_twins (x ∷ []) = false
has_twins (x ∷ y ∷ r) = text_eq x y || has_twins (y ∷ r)

IsNew-of_IsBelow :
    (x y : String) (r : List String) → x ≢ y → text_le x y ≡ true → IsBelow y r → IsNew x r
IsNew-of_IsBelow x y [] ne p h = tt
IsNew-of_IsBelow x y (z ∷ r) ne p (q, h) =
    (λ e. ne (text_le_antisym x y p (rw e q)), IsNew-of_IsBelow x y r ne p h)

Distinct-of_no_twins : (xs : List String) → IsSorted xs → has_twins xs ≡ false → Distinct xs
unfolding has_twins
Distinct-of_no_twins [] s h = tt
Distinct-of_no_twins (x ∷ []) s h = (tt, tt)
Distinct-of_no_twins (x ∷ y ∷ r) ((p, b), (b', s)) h =
    let ne : x ≢ y = ground (arith, text_eq_iff x y) in
    ((ne, IsNew-of_IsBelow x y r ne p b'), Distinct-of_no_twins (y ∷ r) (b', s) (ground arith))

not_Distinct_of_twins : (xs : List String) → has_twins xs ≡ true → ¬ Distinct xs
unfolding has_twins
not_Distinct_of_twins [] h = cc
not_Distinct_of_twins (x ∷ []) h = cc
not_Distinct_of_twins (x ∷ y ∷ r) h = λ d. elim (Bool-cases (text_eq x y)) [
  | inl e ↦ d.0.0 ((text_eq_iff x y).0 e)
  | inr e ↦ not_Distinct_of_twins (y ∷ r) (ground arith) d.1
]

-- After sorting, a comparison of neighbours finds a repetition exactly when there is one.
pub has_twins-sort_iff : (xs : List String) → (has_twins (sort xs) ≡ false) ↔ Distinct xs
has_twins-sort_iff xs = (
  λ h. (Distinct-sort xs).0 (Distinct-of_no_twins (sort xs) (sort-IsSorted xs) h),
  λ d. elim (Bool-cases (has_twins (sort xs))) [
    | inl e ↦ absurd (not_Distinct_of_twins (sort xs) e ((Distinct-sort xs).1 d))
    | inr e ↦ e
  ],
)

All-insert :
    (P : String → Type 0) (x : String) (ys : List String) → P x → All P ys → All P (insert x ys)
unfolding insert
All-insert P x [] p h = (p, tt)
All-insert P x (y ∷ ys) p (q, h) = ground (arith, All-insert P x ys p h)

pub All-sort : (P : String → Type 0) (xs : List String) → All P xs → All P (sort xs)
unfolding sort
All-sort P [] h = tt
All-sort P (x ∷ xs) (p, h) = All-insert P x (sort xs) p (All-sort P xs h)
