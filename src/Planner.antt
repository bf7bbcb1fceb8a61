-- ===== src/Planner.antt =====
-- The planner: planner/critic.py, which reviews a candidate plan, and planner/json_tools.py, which
-- takes the JSON objects out of a model's answer.
pub mod Critic
pub mod Spans
