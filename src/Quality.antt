-- ===== src/Quality.antt =====
-- src/engines/quality_engine.py: how far a dataset can be trusted, and whether the signal engine may
-- use it.
pub mod Score
pub mod Freshness
pub mod Consistency
pub mod Gate
pub mod Classification
pub mod OptionChain
