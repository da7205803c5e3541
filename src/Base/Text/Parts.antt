-- ===== src/Base/Text/Parts.antt =====
-- The parts of a text between the occurrences of another, and a slice of a text.
use Prim.Native.Nat.{ℕ, zero, suc}
use Prim.Native.Char.{Char, code}
use Prim.Native.String.{String, [], ◌∷◌}
use mathlib.Core.Path.{◌≡◌, refl}
use mathlib.Core.Logic.{inl, inr}
use mathlib.Core.Bool.{true, false}
use mathlib.Core.List.{List, [], ◌∷◌}
use mathlib.Core.Option.{some}
use native.Mathlib.Omega.{arith}
use budget_app.Base.Lists.{get_elem?}
use budget_app.Base.Tests.{if◌then◌else◌, Bool-cases}
use budget_app.Base.Text.{starts, codes, contains, within}
use budget_app.Base.Text.Replace.{past_first}

-- A character in front of the first part.
onto : Char → List String → List String
onto c [] = (c ∷ []) ∷ []
onto c (r ∷ rs) = (c ∷ r) ∷ rs

split_from : ℕ → String → String → List String
split_from skip pattern [] = [] ∷ []
split_from (suc skip) pattern (c ∷ s) = split_from skip pattern s
split_from zero pattern (c ∷ s) =
    let found : List String = [] ∷ split_from (past_first pattern) pattern s in
    let rest = split_from 0 pattern s in
    if starts (codes pattern) (code c ∷ codes s) then found else onto c rest

-- `s.split(pattern)`, for a pattern that is not empty
unfoldable pub split_at : String → String → List String
unfolding split_from onto starts past_first
split_at pattern s = split_from 0 pattern s

-- `s.substring(from, to)`, for `from` at most `to`
unfoldable pub substring : ℕ → ℕ → String → String
substring from to [] = []
substring from zero (c ∷ s) = []
substring zero (suc to) (c ∷ s) = c ∷ substring 0 to s
substring (suc from) (suc to) (c ∷ s) = substring from to s

runs :
    (split_at "::" "a::b:c::" ≡ "a" ∷ "b:c" ∷ "" ∷ [])
    × (substring 1 3 "abcde" ≡ "bc")
    × (substring 1 9 "ab" ≡ "b")
unfolding split_at substring
runs = (refl, refl, refl)

onto-first : (c : Char) (rs : List String) → (a : String) × (get_elem? (onto c rs) 0 ≡ some a)
unfolding onto
onto-first c [] = (_, refl)
onto-first c (r ∷ rs) = (_, refl)

onto-second :
    (c : Char) (a : String) (rs : List String)
    → get_elem? rs 1 ≡ some a
    → get_elem? (onto c rs) 1 ≡ some a
unfolding onto
onto-second c a [] h = cc
onto-second c a (r ∷ rs) h = h

-- There is a first part, and after an occurrence a second one.
split_from-first :
    (skip : ℕ) (pattern s : String)
    → (a : String) × (get_elem? (split_from skip pattern s) 0 ≡ some a)
unfolding split_from
split_from-first skip pattern [] = ([], refl)
split_from-first (suc skip) pattern (c ∷ s) = split_from-first skip pattern s
split_from-first zero pattern (c ∷ s) =
    elim (Bool-cases (starts (codes pattern) (code c ∷ codes s))) [
      | inl e ↦ rw e ([], refl)
      | inr e ↦ rw e (onto-first c (split_from 0 pattern s))
    ]

split_from-second :
    (pattern s : String)
    → contains s pattern ≡ true
    → starts (codes pattern) [] ≡ false
    → (a : String) × (get_elem? (split_from 0 pattern s) 1 ≡ some a)
unfolding split_from contains within
split_from-second pattern [] h full = ground (arith, h, full)
split_from-second pattern (c ∷ s) h full =
    elim (Bool-cases (starts (codes pattern) (code c ∷ codes s))) [
      | inl e ↦ rw e (split_from-first (past_first pattern) pattern s)
      | inr e ↦
          let (a, later) = split_from-second pattern s (rw e at h) full in
          rw e (a, onto-second c a (split_from 0 pattern s) later)
    ]

pub split_at-second :
    (pattern s : String)
    → contains s pattern ≡ true
    → contains "" pattern ≡ false
    → (a : String) × (get_elem? (split_at pattern s) 1 ≡ some a)
unfolding split_at contains within
split_at-second pattern s h full = split_from-second pattern s h full
