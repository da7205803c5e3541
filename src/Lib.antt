-- ===== src/Lib.antt =====
-- The page on which the owners of a budget plan their projects, as far as its scripts compute:
-- BudgetApp/war/scripts/editProjects.js, with the formatters of
-- BudgetApp/war/SlickGrid-master/slick.formatters.js that the application adds to the grid.
--
-- The grid shows `data`, an array of row objects with numbered fields. A project has four rows, for its
-- forecast, quarterly target, accrual and what is left to spend (field 11), which share field 34;
-- the fields 12 to 23 are the months and 24 is their total. A project of several brands is divided
-- in a pop-up, whose table is `m_data`; its sub-projects have identifiers with a point.
--
-- Files and code:
--   Js          numbers, dynamically typed cells and the operators on them
--   Page        row objects and the effects of a handler, in order
--   Constants   BudgetApp/src/com/gene/app/util/BudgetConstants.java
--   Months      the loop that fills the months of a row and adds them up
--   Popup       saveAndClose with validateUserAndBrand and validateUserAndBrandExists,
--               closeWithoutSave, addNewRow, initDeletionCell, deleteSelectedProjects
--   Submit      submitProjects: Answered the callbacks of its request
--   Removal     deleteCurrentProject and its button
--   Edit        updateMemCache: Cells the cell and the key, Rows one turn of the loop, Loop the loop,
--               Remainder the last sub-project, Brand the brand, Update the whole with the
--               callbacks
--   Totals      calculateTotal
--   Search      searchProject and the search field of BudgetApp/war/editProjects.jsp; the parents of a
--               row are an argument, and the page has no row with one
--   Summary     getSummaryValues and sumTotalsFormatter
--   Arrays      removeArrayItem
--   Session     the handlers above in any order between two loads of the page
--   Guard       the handler of onBeforeEditCell in BudgetApp/war/editProjects.jsp, which decides
--               whether a cell opens
--   Groups      groupByStatus: the titles of the groups
--   Create      createNewProjects, createIntProjects and the dummy rows of the groups
--   Views       selectUserView, selectUserView1, getCostCenterDetails and the windows
--   Export      Sheet modifyData and exportExcelData, Csv BudgetApp/war/scripts/fileHandle.js
--   Editors     BudgetApp/war/SlickGrid-master/slick.editors.js: the editors that the application has
--               added or changed, LongText the window of a remark, Completion the offered entries
--   Formatters  the application's own formatters: Amounts, Links, Fields
--
-- A handler is a function from the state that it reads to the state that it leaves and the list of
-- its effects: alerts, questions, changes of the page, requests. Answers to questions, what the user
-- has entered, dates and the answers of the server are arguments. `none` stands for the exception
-- that a method call on a missing value throws. Arrays are lists, and the objects in them are
-- functions from field numbers to values, so that a write to a shared object is a write to its place
-- in the list.
--
-- Numbers are an interface, Js.Numbers.Number, with the operations that the scripts use and no laws:
-- the theorems hold for the doubles of JavaScript as for any other numbers, and a theorem that
-- needs a law has it as a hypothesis. Js.Decimal implements it with decimals to six places for the
-- tests. Its printing takes 40 digits of fuel, more than any amount of the page has.
-- Texts are sequences of code points, with the white space and the letter cases of ASCII.
-- Every loop is structural on its list or its count.
--
-- Not modelled: the libraries, the JSP pages but for the handlers named above, the Java servlets, the
-- drawing of the grid, and how a browser reads the markup that the formatters write: the button of a
-- row has an attribute without quotes, which ends at the first white space, and Removal takes the
-- value that the browser has read as an argument.
pub mod Base
pub mod Js
pub mod Page
pub mod Popup
pub mod Constants
pub mod Submit
pub mod Removal
pub mod Months
pub mod Edit
pub mod Formatters
pub mod Create
pub mod Views
pub mod Export
pub mod Totals
pub mod Groups
pub mod Editors
pub mod Search
pub mod Summary
pub mod Arrays
pub mod Session
pub mod Guard
mod Fixtures
