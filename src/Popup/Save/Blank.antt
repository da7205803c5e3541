-- ===== src/Popup/Save/Blank.antt =====
-- war/scripts/editProjects.js, `saveAndClose`: a table in which nothing has been entered.
use budget_app.Popup.Rows.{Popup}
