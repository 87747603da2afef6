-- ===== src/Js.antt =====
-- What the sources use of the TypeScript language and its library: text, numbers in decimal, values.
pub mod Text
pub mod Decimal
pub mod Percent
pub mod Json
