-- ===== src/Editors/LongText.antt =====
-- slick.editors.js, `LongTextEditor`: the window of a remark, its keys and its buttons.
pub mod Stored
use budget_app.Base.{Bool, String, List, [], ◌∷◌, ◌==◌, if◌then◌else◌, text_length, trim}
use budget_app.Base.Text.Replace.{replace_all}

-- What the window asks the grid for.
pub data Request : Type 0 where
  commit_changes : Request
  cancel_changes : Request
  navigate_prev : Request
  navigate_next : Request

pub data Key : Type 0 where
  enter : Key
  escape : Key
  tab : Key
  other : Key

-- `replace(/</g, "&lt;")`, then `replace(/>/g, "&gt;")`, and a text of white space becomes empty.
unfoldable pub escaped : String → String
unfolding replace_all
escaped s = replace_all ">" "&gt;" (replace_all "<" "&lt;" s)

unfoldable pub stored_text : String → String
unfolding escaped
stored_text s = if text_length (trim (escaped s)) == 0 then "" else escaped s

-- `save`
unfoldable pub save : String → String × List Request
unfolding stored_text
save s = (stored_text s, commit_changes ∷ [])

-- `cancel`
unfoldable pub cancel : String → String × List Request
cancel s = (s, cancel_changes ∷ [])

-- `show`
unfoldable pub show_text : String → String
unfolding replace_all
show_text s = replace_all "&gt;" ">" (replace_all "&lt;" "<" s)

-- `handleKeyDown`, on a key with Ctrl and Shift held or not
unfoldable pub handle_key_down : Key → Bool → Bool → String → String × List Request
unfolding save cancel stored_text
handle_key_down enter ctrl shift s = if ctrl then save s else (s, [])
handle_key_down escape ctrl shift s = cancel s
handle_key_down tab ctrl shift s =
    if shift then (s, navigate_prev ∷ []) else (stored_text s, navigate_next ∷ [])
handle_key_down other ctrl shift s = (s, [])
