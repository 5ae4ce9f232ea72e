-- ===== src/Tests.antt =====
-- Runs on concrete inputs, and the theorems at inputs that meet their hypotheses.
mod Layouts
mod Runs
mod Witnesses
mod Exchanges
mod Journeys
mod Constants
mod Edges
mod Sandbox
mod Plans
mod Fabric
mod Ledgers
