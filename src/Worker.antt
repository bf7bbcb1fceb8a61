-- ===== src/Worker.antt =====
-- worker.py: the gate in front of a handler, what becomes of a handler's output, and the end of a
-- claimed task.
pub mod Signoff
pub mod Gate
pub mod Desk
pub mod Outputs
pub mod PostGate
pub mod Claimed
