-- ===== src/Search/Found.antt =====
-- war/scripts/editProjects.js, `searchProject`: which rows are found, and the map.
use budget_app.Base.{
  ◌≡◌, refl, ap, ◌∙◌, inl, inr, Bool, true, false, not, ◌&&◌, ◌||◌, String, Option, none, some,
  List, [], ◌∷◌, if◌then◌else◌, ltb, text_eq, text_eq_iff, text_length, contains_fold, eq_fold,
  both-some, either-some, All, Bool-cases, select, arith,
}
use budget_app.Js.{Number, Value, str, bool, Row, loose_eq}
use budget_app.Page.{Item}
use budget_app.Search.{
  Query, set_entry, lacks, searched_lacks, is_long, sub_brands, brand_lacks, is_other_kind,
  is_missed, is_rejected, map_key, under_parents, search_project, refresh,
}
use budget_app.Totals.{Entries}

module _ {N : Type 0} ⦃n : Number N⦄ where
  abbrev pub IsText : Value N → Type 0
  IsText v = (s : String) × (v ≡ str s)

  -- The fields that are searched are texts.
  abbrev pub AreTexts : Row N → Type 0
  AreTexts d = All (λ j. IsText (d j)) (27 ∷ 28 ∷ 29 ∷ 30 ∷ 32 ∷ 40 ∷ [])

  -- A text with the searched one in it, in upper or lower case.
  abbrev pub has : String → Value N → Bool
  has search (str s) = contains_fold s search
  has search v = false

  abbrev pub is_short_id : Value N → Bool
  is_short_id (str s) = not (ltb 9 (text_length s))
  is_short_id v = false

  abbrev pub fits : String → Value N → Bool
  fits radio (str s) =
      text_eq radio "All" || loose_eq {N = N} (str s) (str "undefined") || eq_fold s radio
  fits radio v = false

  -- Whether the brand of a project, or one of those of its sub-projects, has the text.
  abbrev pub has_brand : Query N → Item N → Bool
  has_brand q item =
      if loose_eq (item.cells 37) (bool true)
      then contains_fold (sub_brands q.brands item) q.search
      else has q.search (item.cells 28)

  -- A row is found if it is of the chosen kind, and the text stands in its identifier of at most nine characters, its
  -- brand or one of the brands of its sub-projects, or one of the fields 29, 30 and 32, or it is a row of totals,
  -- or nothing is searched for.
  abbrev pub is_found : Query N → Item N → Bool
  is_found q item =
      let d = item.cells in
      fits q.radio (d 40)
      && (text_eq q.search ""
          || loose_eq (d 26) (str "Total")
          || (is_short_id (d 27) && has q.search (d 27))
          || has_brand q item
          || has q.search (d 29)
          || has q.search (d 30)
          || has q.search (d 32))

  searched_lacks-has :
      (search : String) (v : Value N)
      → IsText v
      → searched_lacks search v ≡ some (not (text_eq search "" || has search v))
  unfolding searched_lacks lacks
  searched_lacks-has search v (s, e) = rw e (ground arith)

  is_long-is_short_id : (v : Value N) → IsText v → is_long v ≡ some (not (is_short_id v))
  unfolding is_long
  is_long-is_short_id v (s, e) = rw e (ground arith)

  brand_lacks-has_brand :
      (q : Query N) (item : Item N)
      → IsText (item.cells 28)
      → brand_lacks q item ≡ some (not (text_eq q.search "" || has_brand q item))
  unfolding brand_lacks lacks
  brand_lacks-has_brand q item (s, e) = rw e (ground arith)

  is_other_kind-fits :
      (radio : String) (v : Value N) → IsText v → is_other_kind radio v ≡ some (not (fits radio v))
  unfolding is_other_kind
  is_other_kind-fits radio v (s, e) = rw e (ground arith)

  is_rejected-is_found :
      (q : Query N) (item : Item N)
      → AreTexts item.cells
      → is_rejected q item ≡ some (not (is_found q item))
  unfolding is_rejected is_missed
  is_rejected-is_found q item (h27, (h28, (h29, (h30, (h32, (h40, _)))))) =
      simp
        (
          is_long-is_short_id _ h27,
          searched_lacks-has _ _ h27,
          brand_lacks-has_brand q item h28,
          searched_lacks-has _ _ h29,
          searched_lacks-has _ _ h32,
          searched_lacks-has _ _ h30,
          is_other_kind-fits _ _ h40,
          both-some,
          either-some,
        )
        (ap some (ground arith))

  -- The filter rejects a row whose searched fields are texts exactly if it is not found, and a found row is
  -- entered into the map. It is shown if its field 33 is "New" as well.
  pub search_project-is_found :
      (q : Query N) (item : Item N) (map : Entries N)
      → AreTexts item.cells
      → search_project q [] item map
        ≡ some (
            if is_found q item
            then (
              loose_eq (item.cells 33) (str "New"),
              set_entry (map_key item.cells) item.cells map,
            )
            else (false, map))
  unfolding search_project under_parents
  search_project-is_found q item map h =
      rw (is_rejected-is_found q item h)
        (elim (Bool-cases (is_found q item)) [ inl e ↦ rw e refl | inr e ↦ rw e refl ])

  -- `map[key]`
  abbrev pub lookup : String → Entries N → Option (Row N)
  lookup key [] = none
  lookup key ((k, d) ∷ es) = if text_eq k key then some d else lookup key es

  lookup-set_entry :
      (key k : String) (d : Row N) (es : Entries N)
      → lookup key (set_entry k d es) ≡ (if text_eq k key then some d else lookup key es)
  unfolding set_entry
  lookup-set_entry key k d [] = refl
  lookup-set_entry key k d ((j, e) ∷ es) = elim (Bool-cases (text_eq j k)) [
    | inl same ↦
        let eq = (text_eq_iff j k).0 same in
        rw same
          (rw eq (elim (Bool-cases (text_eq k key)) [ inl p ↦ rw p refl | inr p ↦ rw p refl ]))
    | inr other ↦ rw other (elim (Bool-cases (text_eq j key)) [
      | inl here ↦
          let eq = (text_eq_iff j key).0 here in
          let apart : text_eq k key ≡ false =
            ground (arith, other, eq, text_eq_iff k key, text_eq_iff j k) in
          rw (here, apart) refl
      | inr there ↦ rw there (lookup-set_entry key k d es)
    ])
  ]

  -- The last found row with a key, or else what there was before.
  abbrev pub latest : Query N → String → Option (Row N) → List (Item N) → Option (Row N)
  latest q key before [] = before
  latest q key before (item ∷ items) =
      let here = is_found q item && text_eq (map_key item.cells) key in
      latest q key (if here then some item.cells else before) items

  -- The rows that are found and shown.
  abbrev pub is_shown : Query N → Item N → Bool
  is_shown q item = is_found q item && loose_eq (item.cells 33) (str "New")

  -- If the searched fields of all rows are texts, the search shows the found rows whose field 33 is "New" in their order, and
  -- leaves in the map, under each key, the last found row with the key, or else what stood there before.
  pub refresh-is_found :
      (q : Query N) (items : List (Item N)) (map : Entries N)
      → All (λ i. AreTexts i.cells) items
      → (map' : Entries N) × (refresh q items map ≡ some (select (is_shown q) items, map'))
        × ((key : String) → lookup key map' ≡ latest q key (lookup key map) items)
  unfolding refresh
  refresh-is_found q [] map h = (map, refl, λ key. refl)
  refresh-is_found q (item ∷ items) map (h, hs) =
      let e = search_project-is_found q item map h in
      elim (Bool-cases (is_found q item)) [
        | inl found ↦
            let (map', er, all) =
              refresh-is_found q items (set_entry (map_key item.cells) item.cells map) hs in
            (
              map',
              rw e (rw found (rw er refl)),
              λ key. rw found (
                  all key
                  ∙ ap (λ o. latest q key o items)
                      (lookup-set_entry key (map_key item.cells) item.cells map)),
            )
        | inr missed ↦
            let (map', er, all) = refresh-is_found q items map hs in
            (map', rw e (rw missed (rw er refl)), λ key. rw missed (all key))
      ]
