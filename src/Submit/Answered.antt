-- ===== src/Submit/Answered.antt =====
-- war/scripts/editProjects.js, `submitProjects`: what follows the answer of the server.
use Prim.Native.Char.{code}
use Prim.Native.String.{[], ◌∷◌}
use budget_app.Base.{
  ◌≡◌, refl, inl, inr, false, String, Option, some, List, [], ◌∷◌, ◌==◌, if◌then◌else◌, concat,
  contains, get_elem?, ◌>>=◌, Bool-cases,
}
use budget_app.Base.Text.Parts.{split_at, substring, split_at-second}
use budget_app.Page.{Item, Effect, alert, enable, hide, reload}

json_escaped : String → String
json_escaped [] = "\""
json_escaped (c ∷ s) =
    let rest = json_escaped s in
    if code c == 34
    then concat "\\\"" rest
    else if code c == 92
    then concat "\\\\" rest
    else if code c == 10
    then concat "\\n" rest
    else if code c == 13
    then concat "\\r" rest
    else if code c == 9
    then concat "\\t" rest
    else c ∷ rest

-- `JSON.stringify(s)`, for a text without control characters other than line ends and tabs
unfoldable pub stringify : String → String
unfolding json_escaped
stringify s = concat "\"" (json_escaped s)

-- `split("java.lang.Error:")[1].substring(1, 38)`
unfoldable pub java_error : String → Option String
unfolding split_at substring
java_error response = do
  second ← get_elem? (split_at "java.lang.Error:" response) 1
  some (substring 1 38 second)

unfoldable pub failure_text : String → Option String
unfolding java_error stringify
failure_text response =
    let java = java_error response >>= λ s. some (stringify s) in
    if contains response "<poError>:"
    then some "PO Number already exists !!!"
    else if contains response "java.lang.Error:"
    then java
    else some "Unknow server error occured."

module _ {N : Type 0} where
  -- `success`; the list is `storeData` afterwards.
  unfoldable pub submit_done : List (Item N) × List (Effect N)
  submit_done = ([], alert "Project(s) created successfully!!!" ∷ reload ∷ [])

  -- `error`
  unfoldable pub submit_failed : String → Option (List (Effect N))
  unfolding failure_text
  submit_failed response = do
    text ← failure_text response
    some (alert text ∷ enable "submitProjBtn" ∷ hide "back" ∷ hide "loader_image" ∷ [])

not_in_nothing : contains "" "java.lang.Error:" ≡ false
unfolding contains
not_in_nothing = refl

failure_text-some : (response : String) → (text : String) × (failure_text response ≡ some text)
unfolding failure_text java_error
failure_text-some response = elim (Bool-cases (contains response "<poError>:")) [
  | inl po ↦ rw po (_, refl)
  | inr no_po ↦ elim (Bool-cases (contains response "java.lang.Error:")) [
    | inl java ↦
        let (part, e) = split_at-second "java.lang.Error:" response java not_in_nothing in
        rw (no_po, java, e) (_, refl)
    | inr unknown ↦ rw (no_po, unknown) (_, refl)
  ]
]

-- Whatever text the server answers with an error, the handler does not throw: it shows one message,
-- and then the projects can be submitted again and the page is uncovered.
pub submit_failed-some :
    (N : Type 0) (response : String)
    → (text : String) × (submit_failed {N = N} response
        ≡ some (alert text ∷ enable "submitProjBtn" ∷ hide "back" ∷ hide "loader_image" ∷ []))
unfolding submit_failed
submit_failed-some N response = let (text, e) = failure_text-some response in (text, rw e refl)
