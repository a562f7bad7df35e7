-- ===== src/Lamport.antt =====
-- crates/lamport: Lamport and Winternitz one-time signatures and the store of a party's keys.
pub mod Bits
pub mod Key
pub mod Winternitz
pub mod Gadgets
pub mod KeyStore
mod Examples
