-- ===== src/TextUtil.antt =====
-- pkg/core/textutil/textutil.go, one module for each family of functions.
pub mod Ranges
pub mod Fields
pub mod Chars
pub mod Normalize
pub mod Keys
pub mod Sets
mod Samples
