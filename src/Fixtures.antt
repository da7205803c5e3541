-- ===== src/Fixtures.antt =====
-- Rows for the tests, over the decimals.
use budget_app.Base.{ℕ, String, List, [], ◌∷◌, ◌==◌, if◌then◌else◌}
use budget_app.Js.{Value, undefined, str, Row}
use budget_app.Js.Decimal.{Decimal}
use budget_app.Page.{Item}

-- A row with these fields.
abbrev pub fields : List (ℕ × Value Decimal) → Row Decimal
fields [] j = undefined
fields ((i, v) ∷ fs) j = if i == j then v else fields fs j

abbrev pub item_of : String → Row Decimal → Item Decimal
item_of id d = record { id = id; cells = d; subs = []; children = [] }

-- A row of amounts: one in March, which is its total.
abbrev pub amounts : String → String → Row Decimal
amounts status march = fields (
    (12, str "0")
    ∷ (13, str "0")
    ∷ (14, str march)
    ∷ (15, str "0")
    ∷ (16, str "0")
    ∷ (17, str "0")
    ∷ (18, str "0")
    ∷ (19, str "0")
    ∷ (20, str "0")
    ∷ (21, str "0")
    ∷ (22, str "0")
    ∷ (23, str "0")
    ∷ (24, str march)
    ∷ (26, str status)
    ∷ [])
