-- ===== src/Examples.antt =====
-- Runs of the model on concrete inputs, and the theorems at them.
mod Sample
mod Simulation
mod Parts
mod Policies
mod InMemory
mod Memory
mod Opening
mod Scenarios
mod Tables
mod Services
mod Imports
mod Access
mod Settings
mod Race
mod Serial
