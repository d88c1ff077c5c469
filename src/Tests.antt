-- ===== src/Tests.antt =====
-- The theorems at concrete inputs, and runs of the model that can be followed in the source.
mod Samples
mod Lifecycle
mod Ledger
mod Gate
mod Switch
mod Broker
mod Instruments
mod Recovery
mod Pending
mod Schedule
mod Walk
mod Evaluation
mod Usage
mod Promotions
mod Fills
