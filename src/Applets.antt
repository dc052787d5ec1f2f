-- ===== src/Applets.antt =====
-- pkg/applets: the commands that are modelled.
pub mod Cut
pub mod Echo
pub mod Head
pub mod Printf
pub mod Seq
pub mod Sort
pub mod Tail
pub mod Tr
pub mod Uniq
pub mod Wc
mod Samples
