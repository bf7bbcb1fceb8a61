-- ===== src/Tests.antt =====
-- Concrete plans, stores and runs, and the theorems applied to them.
mod Samples
mod Plans
mod Recoveries
mod Crashes
mod Gates
mod Runs
mod Reviews
mod Workers
mod Answers
