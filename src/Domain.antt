-- ===== src/Domain.antt =====
-- execution/domain.py: the vocabulary of orders, the evidence records and the broker command.
pub mod Types
pub mod Evidence
pub mod Command
pub mod Lifecycle
pub mod Attempts
