-- ===== src/Supervisor.antt =====
-- src/py_frp/supervisor.py: one business child after another. What happens to a child is an argument:
-- how its launch ends, what the supervisor sees at each tick while it runs, and the state it returns.
pub mod Breaker
pub mod Monitor
pub mod Rounds
pub mod Failures
pub mod Rotation
