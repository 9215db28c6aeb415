-- ===== src/Validators.antt =====
-- src/core/validators: the steps of the validation pipeline.
pub mod Ohlcv
pub mod Gaps
pub mod Dedup
pub mod Semantic
