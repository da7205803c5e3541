-- ===== src/Editors/Completion.antt =====
-- slick.editors.js, `AutoCompleteEditor`: the entries that are offered for what has been typed.
use budget_app.Base.{
  ◌≡◌, refl, ap, inl, inr, Bool, String, List, [], ◌∷◌, select, concat, trim, starts_fold,
  Bool-cases, if◌then◌else◌, true, false, text_eq, arith,
}
use budget_app.Base.Text.Prefix.{starts_fold-concat, starts_fold-nil}

-- `entry.trim().toLowerCase().indexOf(term.toLowerCase()) === 0`
unfoldable pub is_offered : String → String → Bool
unfolding starts_fold
is_offered term entry = starts_fold (trim entry) term

-- `source`: the entries that are offered, in their order.
unfoldable pub offered_tags : String → List String → List String
offered_tags term tags = select (is_offered term) tags

-- `init`: the entries are the project owners, or the brands.
unfoldable pub auto_tags : String → List String → List String → List String
auto_tags column po_owners available_tags =
    if text_eq column "Project Owner" then po_owners else available_tags

is_offered-nil : (entry : String) → is_offered "" entry ≡ true
unfolding is_offered
is_offered-nil entry = starts_fold-nil (trim entry)

is_offered-concat :
    (term more entry : String)
    → is_offered (concat term more) entry ≡ true
    → is_offered term entry ≡ true
unfolding is_offered
is_offered-concat term more entry h = starts_fold-concat (trim entry) term more h

-- Typing on narrows the list: the entries that are offered for the longer term are found among those that
-- were offered before. As long as nothing has been typed, every entry is offered.
offered_tags-concat :
    (term more : String) (tags : List String)
    → (offered_tags (concat term more) (offered_tags term tags)
        ≡ offered_tags (concat term more) tags)
      × (offered_tags "" tags ≡ tags)
unfolding offered_tags
offered_tags-concat term more [] = (refl, refl)
offered_tags-concat term more (tag ∷ tags) =
    let (rest, all) = offered_tags-concat term more tags in
    let shown : offered_tags "" (tag ∷ tags) ≡ tag ∷ tags =
      rw (is_offered-nil tag) (ap (◌∷◌ tag) all) in
    elim (Bool-cases (is_offered term tag)) [
      | inl now ↦
          (rw now (ap (λ r. if is_offered (concat term more) tag then tag ∷ r else r) rest), shown)
      | inr never ↦
          let later : is_offered (concat term more) tag ≡ false =
            ground (arith, never, is_offered-concat term more tag) in
          (rw never (rw later rest), shown)
    ]
