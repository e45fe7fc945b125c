-- ===== src/Examples.antt =====
-- Runs of the model at concrete inputs.
mod Fixtures
mod Log
mod Undoing
mod Searching
mod Planning
mod Branches
