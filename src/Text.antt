-- ===== src/Text.antt =====
-- What the program uses of Go's `strings`, `unicode` and `path/filepath`, over byte strings.
pub mod Utf8
pub mod Space
pub mod Contains
pub mod Fold
pub mod FilePath
pub mod Runes
pub mod FoldAscii
pub mod LowerAscii
pub mod Paths
pub mod Cuts
