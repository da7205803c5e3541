-- ===== src/Base/Text/Prefix.antt =====
-- What a text starts with.
use Prim.Native.Nat.{ℕ}
use Prim.Native.String.{String, [], ◌∷◌}
use mathlib.Core.Path.{◌≡◌, refl}
use mathlib.Core.Bool.{true}
use mathlib.Core.List.{List, [], ◌∷◌, map}
use native.Mathlib.Omega.{arith}
use text.Mathlib.TextLemmas.{cons-append}
use budget_app.Base.Text.{codes, starts, to_lower, starts_fold, concat}

starts-concat :
    (t u : String) (s : List ℕ)
    → starts (map to_lower (codes (concat t u))) s ≡ true
    → starts (map to_lower (codes t)) s ≡ true
unfolding starts
starts-concat [] u s h = refl
starts-concat (c ∷ t) u [] h = rw cons-append at h
starts-concat (c ∷ t) u (d ∷ s) h =
    let h' = rw cons-append at h in ground (arith, h', starts-concat t u s)

-- A text that starts with a longer one starts with a shorter one.
pub starts_fold-concat :
    (hay t u : String) → starts_fold hay (concat t u) ≡ true → starts_fold hay t ≡ true
unfolding starts_fold
starts_fold-concat hay t u h = starts-concat t u _ h

pub starts_fold-nil : (hay : String) → starts_fold hay "" ≡ true
unfolding starts_fold starts
starts_fold-nil hay = refl
