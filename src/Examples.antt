-- ===== src/Examples.antt =====
-- Concrete inputs, tests on them, and the theorems at inputs that meet their hypotheses.
mod Inputs
mod Fees
mod Rings
mod Places
mod Oracles
mod Trackers
mod Stores
mod Flights
mod Records
mod Groups
mod Waits
mod Chunks
