-- ===== src/Export.antt =====
-- Downloads: `exportExcelData`, `onClickAsynch` and `modifyData` of war/scripts/editProjects.js, and
-- `JSONToEXCELConvertor` of war/scripts/fileHandle.js.
pub mod Sheet
pub mod Csv
pub mod Shape
pub mod Lines
mod Tests
