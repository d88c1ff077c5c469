-- ===== src/Risk.antt =====
-- risk/: limits, human approval, the kill switch, and the gate that every submission passes.
pub mod Limits
pub mod Authority
pub mod KillSwitch
pub mod Gate
pub mod GateLaws
pub mod Account
pub mod Projection
pub mod Versioned
pub mod Evaluate
