-- ===== src/Std.antt =====
-- What the program uses of Rust's standard library: strings and ordered maps.
pub mod Order
pub mod BTreeMap
pub mod Str
pub mod Result
pub mod Bits
pub mod Utf8
pub mod Ascii
pub mod Parse
pub mod Sort
pub mod Reorder
