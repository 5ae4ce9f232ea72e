-- ===== src/System/Exchange.antt =====
-- The exchange between the proxy, the TA and the chaincode, when the chaincode follows a plan.
pub mod Step
pub mod Resume
pub mod Dialogue
pub mod Plans
pub mod Run
pub mod Whole
pub mod Joint
pub mod Sequence
pub mod Counting
