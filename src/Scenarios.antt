-- ===== src/Scenarios.antt =====
-- A small log, its proofs and its witness, on a toy platform whose parts are concrete functions.
mod Platforms
mod Logs
mod Growth
mod Trees
mod Delegations
mod Authority
mod Policies
mod Gates
mod Governors
mod Pins
mod Windows
