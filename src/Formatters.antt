-- ===== src/Formatters.antt =====
-- war/SlickGrid-master/slick.formatters.js: how the cells of the grid are drawn, as HTML. A formatter
-- gets the value of the cell and the row; what it returns is a text, the value itself, or
-- `undefined`. `none` stands for the `TypeError` of a method call on a value that lacks the method.
pub mod Amounts
pub mod Links
pub mod Fields
pub mod Shading
mod Tests
