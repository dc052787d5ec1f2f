-- ===== src/Ash.antt =====
-- Arithmetic of the shell (applets/ash/ash.go).
mod Scan
pub mod Arith
pub mod Levels
pub mod Eval
mod Weights
pub mod Ends
mod Blind
mod Sights
mod Operands
pub mod Expr
mod Flat
mod Values
mod Bounds
mod Groups
mod Inner
mod Operations
mod Balanced
mod Trailing
mod Printed
pub mod Read
pub mod Power
pub mod Negative
pub mod Guards
pub mod Assignments
pub mod Pieces
pub mod State
pub mod Evaluate
pub mod Cycle
mod Copied
mod Enclosed
mod Accepted
mod Adjacent
pub mod Whole
mod Samples
