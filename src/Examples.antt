-- ===== src/Examples.antt =====
-- Runs of the models on small inputs, and the theorems at concrete inputs.
mod Labels
mod Records
mod Diffs
mod Unions
mod Merges
mod Lives
mod Graphs
mod Picks
mod Settings
mod Counters
