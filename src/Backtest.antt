-- ===== src/Backtest.antt =====
-- internal/backtest: labels over the replayed days, their metrics, and the replay itself.
pub mod Classifier
pub mod Ports
pub mod State
pub mod Service
pub mod Persistence
pub mod Events
