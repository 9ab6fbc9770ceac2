-- ===== src/Text.antt =====
-- Rust's `&str` as the list of its code points, with the methods of `str` and `char` that the
-- program calls. `len` counts the bytes of UTF-8. An offset into a text counts code points where
-- Rust counts bytes: the program slices only at offsets that `find` and `len` have just given.
mod Defs
pub mod Laws
unfoldable pub use Defs.*
pub use Laws.*
