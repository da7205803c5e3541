-- ===== src/Removal.antt =====
-- war/scripts/editProjects.js, `deleteCurrentProject`, and the button of a row that calls it, which
-- `editableFieldFormatter` of war/SlickGrid-master/slick.formatters.js draws. The role and the name
-- of the user, the cut-off date, the answer to the confirmation and the reading of a date are
-- arguments.
pub mod Rights
mod Tests
use Prim.Native.String.{count}
use budget_app.Base.{
  ℕ, Bool, true, false, String, Option, none, some, List, [], ◌∷◌, ◌++◌, get_elem?, leb,
  if◌then◌else◌, text_eq, concat, split, ◌>>=◌,
}
use budget_app.Js.{Number, Value, undefined, str, num, Row, to_string, loose_eq}
use budget_app.Page.{Effect, alert, confirm, show, hide, reload, post, value}

-- An element of an array of texts, `undefined` out of range.
abbrev pub part : {N : Type 0} → List String → ℕ → Value N
part parts i = elim (get_elem? parts i) [ none ↦ undefined | some s ↦ str s ]

module _ {N : Type 0} where
  -- The alert of an objection; or else the confirmation, and after a yes the request.
  unfoldable pub proceed : Bool → Value N → Value N → Value N → Option String → List (Effect N)
  proceed accepted cost id owner (some text) = alert text ∷ []
  proceed accepted cost id owner none =
      let ask : Effect N = confirm "Please, confirm: delete project?" in
      if accepted
      then ask
        ∷ show "back"
        ∷ show "loader_image"
        ∷ post "/disableProject"
            (("gMem", value id) ∷ ("costCenter", value cost) ∷ ("projectOwner", value owner) ∷ [])
        ∷ []
      else ask ∷ []

-- What the servlet answers: nothing, a status code with a message, or an error.
pub data Answer (N : Type 0) : Type 0 where
  absent failed : Answer N
  status : Value N → Value N → Answer N

module _ {N : Type 0} ⦃n : Number N⦄ where
  -- The text that the formatter writes for the attribute `value` of the button, which has no quotes:
  -- id, owner, date of creation, status and name of the project.
  unfoldable pub button_markup : Row N → String
  button_markup d = concat (to_string (d 27)) (
      concat "~" (
        concat (to_string (d 54)) (
          concat "~" (
            concat (to_string (d 38))
              (concat "~" (concat (to_string (d 26)) (concat "~" (to_string (d 2)))))))))

  -- Why a project owner may not delete the project, if so.
  unfoldable pub objection : String → N → N → Value N → Value N → Option String
  objection user cut_off created owner state =
      if loose_eq owner (str user)
      then if loose_eq state (str "New")
        then if n.lt created cut_off
          then some "Benchmark exists and the project cannot be deleted."
          else none
        else some "PO exists and the project cannot be deleted."
      else some "You are not authorized to delete the project."

  -- `none` is the `TypeError` of a button value with fewer than three parts.
  unfoldable pub delete_project :
      (List String → N) → Bool → String → N → Bool → Value N → String → Option (List (Effect N))
  delete_project date_of is_owner user cut_off accepted cost button =
      let parts = split b'~' button in
      let owner : Value N = part parts 1 in
      get_elem? parts 2 >>= λ date.
      let barred =
        if is_owner
        then objection user cut_off (date_of (split b'_' date)) owner (part parts 3)
        else none in
      some (proceed accepted cost (part parts 0) owner barred)

  unfoldable pub delete_answered : String → Value N → Answer N → List (Effect N)
  delete_answered id name absent = alert "Error occured while deleting project!!!" ∷ []
  delete_answered id name failed = alert "Error occured while deleting project!!!" ∷ reload ∷ []
  delete_answered id name (status code message) =
      let shown = if leb 10 (count id) then "#" else id in
      if loose_eq code (num (n.of_nat 200))
      then alert (
          concat "Project "
            (concat shown (concat " (" (concat (to_string name) ") successfully deleted."))))
        ∷ reload
        ∷ []
      else hide "back" ∷ hide "loader_image" ∷ alert (to_string message) ∷ []
