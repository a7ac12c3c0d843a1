-- ===== src/Js.antt =====
-- What the program takes from JavaScript itself: texts and `bigint` conversions, `Map`, `Set`, and
-- the values that a decoder hands over before their shape is checked.
pub mod Text
pub mod BigInt
pub mod Dict
pub mod Unique
pub mod Value
pub mod Sort
pub mod Try
pub mod Pattern
pub mod Bits
