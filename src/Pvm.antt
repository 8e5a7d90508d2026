-- ===== src/Pvm.antt =====
-- The polkadot virtual machine of PVM/: its state, its decoders and its instructions.
pub mod State
pub mod Extend
pub mod Memory
pub mod Decode
pub mod Control
pub mod Alu
pub mod Instr
pub mod Machine
pub mod Step
pub mod Decoded
pub mod Examples
