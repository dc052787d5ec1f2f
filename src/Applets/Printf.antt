-- ===== src/Applets/Printf.antt =====
-- pkg/applets/printf/printf.go.
pub mod Escapes
pub mod Specs
pub mod Values
pub mod Passes
pub mod Shapes
pub mod Ends
pub mod Reused
pub mod Quoted
mod Samples
