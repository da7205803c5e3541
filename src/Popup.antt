-- ===== src/Popup.antt =====
-- war/scripts/editProjects.js: the pop-up in which a project is divided into sub-projects, one for
-- each brand. `m_data` is its table.
pub mod Rows
pub mod Checks
pub mod Save
pub mod Close
pub mod Deletion
mod Tests
