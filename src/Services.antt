-- ===== src/Services.antt =====
-- The five domain services: internal/{liquidity,volatility,marketstress,capitalflows,leverage}/
-- service.go over the interfaces of port.go.
pub mod Liquidity
pub mod Volatility
pub mod MarketStress
pub mod CapitalFlows
pub mod Leverage
