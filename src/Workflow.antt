-- ===== src/Workflow.antt =====
-- workflow_driver.py: the loop that moves a feature's tasks forward until it is done, blocked, waits
-- for a human, fails or stalls.
pub mod Rows
pub mod Texts
pub mod Recovery
pub mod Effects
pub mod Repair
pub mod SameRole
pub mod Replan
pub mod Stale
pub mod Restore
pub mod Milestones
pub mod Run
pub mod Status
