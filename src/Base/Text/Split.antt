-- ===== src/Base/Text/Split.antt =====
-- Splitting a text that was joined with the separator.
use Prim.Native.Char.{Char, code}
use Prim.Native.String.{String, [], ◌∷◌, ◌++◌}
use mathlib.Core.Path.{◌≡◌, refl, ap, ◌∙◌}
use Prim.Native.Nat.{ℕ}
use mathlib.Core.Bool.{true, false}
use mathlib.Core.List.{[], ◌∷◌}
use text.Mathlib.TextLemmas.{nil-append, cons-append}
use budget_app.Base.Tests.{◌==◌}
use budget_app.Base.Text.{split, concat}

-- The separator does not occur in the text.
abbrev pub Lacks : ℕ → String → Type 0
Lacks sep [] = Unit
Lacks sep (c ∷ s) = ((code c == sep) ≡ false) × Lacks sep s

-- A text without separators is its own only part.
pub split_of_Lacks : (sep : ℕ) (s : String) → Lacks sep s → split sep s ≡ s ∷ []
unfolding split
split_of_Lacks sep [] h = refl
split_of_Lacks sep (c ∷ s) (p, h) = rw p (rw (split_of_Lacks sep s h))

single-append : (c : Char) (t : String) → (c ∷ []) ++ t ≡ c ∷ t
single-append c t = cons-append c [] t ∙ ap {B = String} (◌∷◌ c) (nil-append t)

-- What stands before the first separator is the first part, and the rest is split on its own.
pub split-join :
    (sep : ℕ) (s : String) (c : Char) (t : String)
    → Lacks sep s
    → (code c == sep) ≡ true
    → split sep (concat s (concat (c ∷ []) t)) ≡ s ∷ split sep t
unfolding split
split-join sep [] c t h e = rw (single-append c t, nil-append) (rw e)
split-join sep (d ∷ s) c t (p, h) e = rw cons-append (rw p (rw (split-join sep s c t h e)))
