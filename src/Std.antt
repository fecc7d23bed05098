-- ===== src/Std.antt =====
-- What the program uses of Go's standard library, over texts as lists of bytes.
pub mod Text
pub mod Number
pub mod Strconv
pub mod Binary
pub mod Address
pub mod Mac
pub mod Sort
pub mod Float
pub mod Float64
pub mod Pad
