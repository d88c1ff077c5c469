-- ===== src/Store.antt =====
-- execution/store.py: the SQLite operational ledger.
pub mod Tables
pub mod Intents
pub mod Checks
pub mod Commands
pub mod Submission
pub mod Shapes
pub mod Effect
pub mod Trace
