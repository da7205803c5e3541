-- ===== src/Popup/Tests.antt =====
-- Runs of the pop-up's handlers, and the theorems on them.
use budget_app.Base.{
  ℕ, ◌+◌, ◌≡◌, refl, ◌↔◌, inr, Bool, true, false, ◌&&◌, String, Option, none, some, List, [], ◌∷◌,
  length, All, arith, ltb, leb, ◌==◌, if◌then◌else◌, contains,
}
use budget_app.Base.Order.{Distinct, sort}
use budget_app.Fixtures.{fields, item_of}
use budget_app.Js.{str, num, bool, Row, put}
use budget_app.Js.Decimal.{Decimal, decimal_number, decimal_runs}
use budget_app.Page.{Item, Effect, hide, invalidate}
use budget_app.Popup.Rows.{Popup, blank_row, cleared}
use budget_app.Popup.Checks.{
  scan, owner_brands, duplicates, row_error, labels, twins, fill_names, unassigned, brands_of,
}
use budget_app.Popup.Checks.Passed.{CompleteUpTo, named, own, scan_sound, duplicates-eq-nil_iff}
use budget_app.Popup.Save.{
  refusal, is_listed, divide, accept, save_request, save_and_close, brand_alerts, twin_alerts,
}
use budget_app.Popup.Save.Accepted.{IsSaved, save_sound}
use budget_app.Popup.Save.Refused.{IsAlert, save_refused}
use budget_app.Popup.Save.Divided.{amounts, sum, divide-fields}
use budget_app.Popup.Deletion.{
  is_ticked, remove_ticked, delete_selected, refill, renumber, allocate, seed_first, sum_leading,
}
use budget_app.Popup.Deletion.Refilled.{Allocated, delete_refills, delete_declined}

abbrev clicked : Item Decimal
clicked = item_of "id_4" (
    fields (
      (0, str "307")
      ∷ (1, str "ann")
      ∷ (2, str "Launch")
      ∷ (6, str "Smart WBS")
      ∷ (34, str "307")
      ∷ (37, bool false)
      ∷ (44, str "Avastin")
      ∷ []))

abbrev part_row : String → String → String → Row Decimal
part_row brand amount id =
    fields
      ((1, str brand) ∷ (3, str amount) ∷ (4, str "Launch") ∷ (5, str id) ∷ (7, str "ann") ∷ [])

abbrev two_rows : List (Row Decimal)
two_rows = part_row "Avastin" "60" "307.1" ∷ part_row "Herceptin" "40" "307.2" ∷ blank_row ∷ []

abbrev popup_with : List (Row Decimal) → Popup Decimal
popup_with ds = record {
  rows = ds;
  clicked = clicked;
  tags = "Avastin" ∷ [];
  users = ("ann", "[Avastin,Herceptin]") ∷ [];
}

abbrev owned_rows : List (Row Decimal)
owned_rows =
    put (part_row "Avastin" "60" "307.1") 7 (str "ann")
    ∷ put (part_row "Herceptin" "40" "307.2") 7 (str "ann")
    ∷ blank_row
    ∷ []

abbrev divided : Item Decimal
divided = divide 9 false owned_rows clicked

abbrev saved : Popup Decimal
saved = record {
  rows = cleared owned_rows;
  clicked = divided;
  tags = "Smart WBS" ∷ "Avastin" ∷ [];
  users = ("ann", "[Avastin,Herceptin]") ∷ [];
}

abbrev saved_effects : List (Effect Decimal)
saved_effects = hide "back" ∷ invalidate ∷ save_request false (str "7034") owned_rows divided

save_sound_example : IsSaved 9 false (str "7034") [] (popup_with two_rows) saved saved_effects
unfolding decimal_runs save_and_close scan row_error labels fill_names refusal duplicates
    owner_brands twins sort accept brand_alerts twin_alerts unassigned brands_of contains is_listed
    cleared
save_sound_example =
    save_sound 9 false (str "7034") [] (popup_with two_rows) saved saved_effects refl

divide-fields_example :
    let after = divide 9 true owned_rows clicked in
    ((j : ℕ)
      → after.cells j ≡ (
          if leb (12 + 9) j && ltb j 24
          then num (decimal_number.of_nat 0)
          else if j == 51
          then num (
              if true
              then sum (decimal_number.of_nat 0) (amounts owned_rows)
              else decimal_number.of_nat 0)
          else if true && (j == 37)
          then bool true
          else clicked.cells j))
    × (after.subs ≡ (if true then owned_rows else clicked.subs))
    × (after.id ≡ clicked.id)
    × (after.children ≡ clicked.children)
divide-fields_example = divide-fields 9 true owned_rows clicked (omega arith)

abbrev one_row : List (Row Decimal)
one_row = part_row "Avastin" "60" "307.1" ∷ blank_row ∷ []

abbrev one_owned : Popup Decimal
one_owned = popup_with (put (part_row "Avastin" "60" "307.1") 7 (str "ann") ∷ blank_row ∷ [])

save_refused_example : (clicked ≡ clicked) × All (IsAlert {N = Decimal}) []
unfolding decimal_runs save_and_close scan row_error labels fill_names refusal
save_refused_example =
    save_refused 9 false (str "7034") [] (popup_with one_row) one_owned
      "Please enter atleast two sub-projects." [] refl

abbrev owner_keys : List String
owner_keys = "ann:Avastin" ∷ "ann:Avastin" ∷ []

abbrev twin_rows : List (Row Decimal)
twin_rows = part_row " Avastin" "60" "307.1" ∷ part_row "Avastin" "40" "307.2" ∷ blank_row ∷ []

duplicates-eq-nil_iff_example : (duplicates twin_rows ≡ some []) ↔ Distinct owner_keys
unfolding decimal_runs owner_brands
duplicates-eq-nil_iff_example = duplicates-eq-nil_iff twin_rows owner_keys refl

repeated : duplicates twin_rows ≡ some ("ann:Avastin" ∷ [])
unfolding decimal_runs owner_brands duplicates twins sort
repeated = refl

scan_sound_example :
    CompleteUpTo two_rows × (2 ≡ named two_rows) × (owned_rows ≡ own 2 (str "ann") two_rows)
unfolding decimal_runs scan row_error labels
scan_sound_example = scan_sound (str "ann") two_rows refl

abbrev ticked : List (Row Decimal)
ticked =
    put (part_row "Avastin" "60" "307.1") 8 (bool true)
    ∷ part_row "Herceptin" "40" "307.2"
    ∷ put (part_row "Rituxan" "20" "307.3") 8 (bool true)
    ∷ []

abbrev second_box : ℕ → Bool
second_box i = i == 1

abbrev always : ℕ → Bool
always i = true

-- The second question is answered with no.
abbrev only_first : ℕ → Bool
only_first i = i == 0

abbrev popup_of : Option (Popup Decimal × List (Effect Decimal)) → Popup Decimal
popup_of none = popup_with []
popup_of (some (p, es)) = p

abbrev effects_of : Option (Popup Decimal × List (Effect Decimal)) → List (Effect Decimal)
effects_of none = []
effects_of (some (p, es)) = es

after_deletion : Option (Popup Decimal × List (Effect Decimal))
after_deletion = delete_selected true always (popup_with ticked)

delete_refills_example :
    (length (popup_of after_deletion).rows ≡ 3)
    × Allocated
        (sum_leading (decimal_number.of_nat 0) (popup_of after_deletion).rows)
        (popup_of after_deletion).rows
    × ((popup_of after_deletion).clicked ≡ clicked)
unfolding decimal_runs after_deletion delete_selected is_ticked remove_ticked refill renumber
    allocate seed_first sum_leading
delete_refills_example =
    delete_refills true always (popup_with ticked) (popup_of after_deletion)
      (effects_of after_deletion) (inr refl) refl

delete_declined_example :
    (p' : Popup Decimal) × (effects : List (Effect Decimal)) × (delete_selected true only_first
        (popup_with ticked)
      ≡ some (p', effects))
    × (p'.rows ≡ (remove_ticked only_first 0 ticked).kept)
    × (length p'.rows + length effects ≡ length ticked + 1)
unfolding decimal_runs is_ticked remove_ticked
delete_declined_example = delete_declined only_first (popup_with ticked) refl
