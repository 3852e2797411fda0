-- ===== src/Tests.antt =====
-- Runs of the models on concrete inputs, and the theorems at inputs that meet their hypotheses.
mod Trees
mod Calculations
mod Heaps
mod Indexes
mod Databases
mod Logs
mod Disks
