-- ===== src/Guard/Decided.antt =====
-- war/editProjects.jsp, `grid.onBeforeEditCell`: which of the tests has opened a cell.
use mathlib.Core.Option.{some-injective}
use budget_app.Base.{
  ℕ, Bool, true, false, not, ◌&&◌, Option, some, ◌≡◌, refl, inl, inr, Bool-cases, >>=-eq-some,
}
use budget_app.Guard

pub and-elim : (a b : Bool) → (a && b) ≡ true → (a ≡ true) × (b ≡ true)
and-elim true b e = (refl, e)
and-elim false b e = cc

pub not-elim : (b : Bool) → not b ≡ true → b ≡ false
not-elim true e = cc
not-elim false e = refl

-- The test that opened the cell.
pub data Reason (a b : Bool) (id : Option Bool) (f : Bool → Bool) (first : Option ℕ) (g : ℕ → Bool)
    : Type 0 where
  brand : a ≡ true → Reason a b id f first g
  po : b ≡ true → Reason a b id f first g
  detail : (x : Bool) → id ≡ some x → f x ≡ true → Reason a b id f first g
  later : (i : ℕ) → first ≡ some i → g i ≡ true → Reason a b id f first g

pub decide_edit-eq-true :
    (a b : Bool) (id : Option Bool) (f : Bool → Bool) (first : Option ℕ) (g : ℕ → Bool)
    → Guard.decide_edit a b id f first g ≡ some true
    → Reason a b id f first g
unfolding Guard.decide_edit
decide_edit-eq-true true b id f first g e = brand refl
decide_edit-eq-true false true id f first g e = po refl
decide_edit-eq-true false false id f first g e =
    let (x, e1, e2) = >>=-eq-some id _ e in
    elim (Bool-cases (f x)) [
      | inl t ↦ detail x e1 t
      | inr t ↦
          let (i, e3, e4) = >>=-eq-some first _ (rw t at e2) in later i e3 (some-injective _ _ e4)
    ]
