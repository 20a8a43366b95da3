-- ===== src/Text.antt =====
-- What the source uses of Go's packages path and unicode/utf8, over the bytes of a string.
pub mod Utf8
pub mod Clean
