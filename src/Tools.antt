-- ===== src/Tools.antt =====
-- pkg: the utilities.
pub mod Comm
pub mod Uniq
pub mod Checksum
pub mod Cut
pub mod Expand
pub mod Unexpand
pub mod Fold
pub mod Expr
pub mod Patch
pub mod Tsort
pub mod TestCmd
pub mod Diff
