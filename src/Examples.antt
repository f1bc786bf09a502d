-- ===== src/Examples.antt =====
-- Concrete inputs for the theorems, with the arithmetic of `Float.Fixed`.
mod Engine
mod Scores
mod Replays
mod Flows
mod Leads
mod Ports
mod Domains
mod Daily
