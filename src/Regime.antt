-- ===== src/Regime.antt =====
-- The live regime of src/system2/artifact_sync: the labels of the market's states, their smoothing,
-- and the detector that publishes them.
pub mod Smoothing
pub mod Debouncer
pub mod Mapping
pub mod Detector
mod Examples
