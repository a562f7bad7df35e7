-- ===== src/Script.antt =====
-- crates/script32/src/sim.rs: the interpreter that runs the leaves' scripts natively.
pub mod Number
pub mod Stack
pub mod Machine
pub mod Runs
pub mod Builder
pub mod Sample
mod Examples
