-- ===== src/Edit.antt =====
-- war/scripts/editProjects.js, `updateMemCache`: what an edited cell changes in the rows of the
-- project, and what is sent to the server.
pub mod Cells
pub mod Rows
pub mod Loop
pub mod Remainder
pub mod Brand
pub mod Update
pub mod Frame
pub mod Kept
pub mod Month
pub mod Forecast
pub mod Undivided
pub mod Left
pub mod Amounts
pub mod Shares
pub mod Confirmed
mod Tests
mod Runs
