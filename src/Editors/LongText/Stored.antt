-- ===== src/Editors/LongText/Stored.antt =====
-- slick.editors.js, `LongTextEditor`: the text that is stored and the text that is shown.
use budget_app.Base.{
  ◌≡◌, refl, ap, ◌∙◌, inl, inr, Bool, true, false, String, List, [], ◌∷◌, ◌==◌, if◌then◌else◌,
  Bool-cases, text_length, contains, trim,
}
use budget_app.Base.Text.Entities.{
  within-escape, restore-escape, escape-Lacks, escape-keeps_Lacks, escape_of_Lacks, escape_comm,
}
use budget_app.Base.Text.Replace.{replace_all}
use budget_app.Base.Text.Split.{Lacks}
use budget_app.Editors.LongText.{
  Request, commit_changes, navigate_next, navigate_prev, Key, enter, escape, tab, other, escaped,
  stored_text, save, cancel, show_text, handle_key_down,
}

abbrev pub HasNoMarkup : String → Type 0
HasNoMarkup s = Lacks b'<' s × Lacks b'>' s

escaped-HasNoMarkup : (s : String) → HasNoMarkup (escaped s)
unfolding escaped
escaped-HasNoMarkup s =
    let left = escape-Lacks "<" "l" s (refl, (refl, (refl, (refl, tt)))) in
    (
      escape-keeps_Lacks ">" "g" b'<' _ (refl, (refl, (refl, (refl, tt)))) left,
      escape-Lacks ">" "g" (replace_all "<" "&lt;" s) (refl, (refl, (refl, (refl, tt)))),
    )

pub stored_text-HasNoMarkup : (s : String) → HasNoMarkup (stored_text s)
unfolding stored_text
stored_text-HasNoMarkup s = elim (Bool-cases (text_length (trim (escaped s)) == 0)) [
  | inl blank ↦ rw blank (tt, tt)
  | inr written ↦ rw written (escaped-HasNoMarkup s)
]

escaped_of_HasNoMarkup : (s : String) → HasNoMarkup s → escaped s ≡ s
unfolding escaped
escaped_of_HasNoMarkup s (l, g) = rw (escape_of_Lacks "<" "l" s l) (escape_of_Lacks ">" "g" s g)

-- Whether the grid is asked to store what is in the field and go on.
abbrev pub stores : List Request → Bool
stores (commit_changes ∷ _) = true
stores (navigate_next ∷ _) = true
stores _ = false

show_text-escaped :
    (s : String) → contains s "&lt;" ≡ false → contains s "&gt;" ≡ false → show_text (escaped s) ≡ s
unfolding show_text escaped
show_text-escaped s no_lt no_gt =
    let swap =
      escape_comm "<" "l" ">" "g" s refl (refl, (refl, (refl, (refl, tt))))
        (refl, (refl, (refl, (refl, tt)))) in
    let lt_there =
      within-escape ">" "g" "l" s ((refl, refl), ((refl, refl), ((refl, refl), tt))) refl refl
        refl in
    let left =
      restore-escape "<" "l" (replace_all ">" "&gt;" s)
        ((refl, refl), ((refl, refl), ((refl, refl), tt))) refl (lt_there ∙ no_lt) in
    ap (λ r. replace_all "&gt;" ">" (replace_all "&lt;" "<" r)) swap
    ∙ (ap (replace_all "&gt;" ">") left
        ∙ restore-escape ">" "g" s ((refl, refl), ((refl, refl), ((refl, refl), tt))) refl no_gt)

-- The window asks the grid to store a remark and go on only if the text in it holds neither "<" nor ">",
-- but with Shift and Tab it asks to go back with the text as it was entered.
pub handle_key_down-HasNoMarkup :
    (key : Key) (ctrl shift : Bool) (s : String)
    → (stores (handle_key_down key ctrl shift s).1 ≡ true
        → HasNoMarkup (handle_key_down key ctrl shift s).0)
      × (handle_key_down tab ctrl true s ≡ (s, navigate_prev ∷ []))
unfolding handle_key_down save cancel
handle_key_down-HasNoMarkup enter true shift s = (λ h. stored_text-HasNoMarkup s, refl)
handle_key_down-HasNoMarkup enter false shift s = (λ h. cc, refl)
handle_key_down-HasNoMarkup escape ctrl shift s = (λ h. cc, refl)
handle_key_down-HasNoMarkup tab ctrl true s = (λ h. cc, refl)
handle_key_down-HasNoMarkup tab ctrl false s = (λ h. stored_text-HasNoMarkup s, refl)
handle_key_down-HasNoMarkup other ctrl shift s = (λ h. cc, refl)

nothing : (show_text "" ≡ "") × (stored_text "" ≡ "")
unfolding show_text stored_text trim
nothing = (refl, refl)

-- A stored remark stays the same when it is stored once more.
stored_text_idem : (s : String) → stored_text (stored_text s) ≡ stored_text s
unfolding stored_text
stored_text_idem s = elim (Bool-cases (text_length (trim (escaped s)) == 0)) [
  | inl blank ↦ rw blank nothing.1
  | inr written ↦
      rw written (rw (escaped_of_HasNoMarkup (escaped s) (escaped-HasNoMarkup s)) (rw written))
]

-- A remark without the entities "&lt;" and "&gt;" is stored as a text that the window shows as it was
-- entered, unless its escaped text is white space, of which nothing is left; stored once more, the
-- text stays the same.
pub show_text-stored_text :
    (s : String)
    → contains s "&lt;" ≡ false
    → contains s "&gt;" ≡ false
    → (show_text (stored_text s) ≡ (if text_length (trim (escaped s)) == 0 then "" else s))
      × (stored_text (stored_text s) ≡ stored_text s)
unfolding stored_text
show_text-stored_text s no_lt no_gt = elim (Bool-cases (text_length (trim (escaped s)) == 0)) [
  | inl blank ↦ (rw blank nothing.0, stored_text_idem s)
  | inr written ↦ (rw written (show_text-escaped s no_lt no_gt), stored_text_idem s)
]
