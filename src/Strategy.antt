-- ===== src/Strategy.antt =====
-- strategy/: experiments, their splits in time, and their registry.
pub mod Splits
pub mod Experiment
pub mod ExperimentRegistry
