-- ===== src/Coordinator.antt =====
-- execution/coordinator.py: the coordinator between the ledger, the gate and the broker. The broker
-- adapter is a parameter of the methods that call it.
pub mod Config
pub mod Send
pub mod Recover
pub mod Stored
pub mod SendLaws
pub mod Worlds
pub mod OneOrder
pub mod Window
pub mod Carried
pub mod RecoverLaws
