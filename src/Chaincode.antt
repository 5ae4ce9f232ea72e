-- ===== src/Chaincode.antt =====
-- The coffee chaincode (wrapper_ta/chaincode/coffee_chaincode_wasm.c): its string and number
-- helpers, and its state machine.
pub mod Imports
pub mod Text
pub mod Decimal
pub mod Machine
pub mod Plan
pub mod Follows
