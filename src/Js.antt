-- ===== src/Js.antt =====
-- The values that the page's scripts compute with: numbers behind an interface, the dynamically
-- typed cells of a row, and the conversions and comparisons that JavaScript applies to them.
mod Numbers
mod Values
pub mod Decimal
pub use Numbers.{Number}
unfoldable pub use Values.*
