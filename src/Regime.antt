-- ===== src/Regime.antt =====
-- internal/regime: the aggregation of the domain scores into a regime state.
pub mod Config
pub mod Stats
pub mod Aggregate
pub mod Risk
pub mod Smoothing
pub mod Drivers
pub mod Ports
pub mod Service
pub mod Store
