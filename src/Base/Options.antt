-- ===== src/Base/Options.antt =====
-- Fallible steps in a `do` block, and the inversion of a block that gave a result.
use mathlib.Core.Path.{◌≡◌, refl}
use mathlib.Core.Bool.{Bool, true, false, ◌&&◌, ◌||◌}
use mathlib.Core.Option.{Option, none, some}
use budget_app.Base.Tests.{if◌then◌else◌}

infixl 5 ◌>>=◌
abbrev pub ◌>>=◌ {ℓ κ} : {A : Type ℓ} {B : Type κ} → Option A → (A → Option B) → Option B
none >>= k = none
some a >>= k = k a

pub >>=-eq-some {ℓ κ} :
    {A : Type ℓ} {B : Type κ} (m : Option A) (k : A → Option B) {b : B}
    → (m >>= k) ≡ some b
    → (a : A) × (m ≡ some a) × (k a ≡ some b)
>>=-eq-some none k e = cc
>>=-eq-some (some a) k e = (a, refl, e)

-- `a && b` and `a || b` on tests that may throw; the second is made only if the first does not decide.
abbrev pub both : Option Bool → Option Bool → Option Bool
both m k = m >>= λ b. if b then k else some false

abbrev pub either : Option Bool → Option Bool → Option Bool
either m k = m >>= λ b. if b then some true else k

-- Tests that do not throw are joined as their values are.
pub both-some : (a b : Bool) → both (some a) (some b) ≡ some (a && b)
both-some true b = refl
both-some false b = refl

pub either-some : (a b : Bool) → either (some a) (some b) ≡ some (a || b)
either-some true b = refl
either-some false b = refl
