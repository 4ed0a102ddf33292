-- ===== src/Httpx.antt =====
-- src/core_py/httpx.py: the retry loop of an agent, and the deadline that a request's headers give.
pub mod Retry
pub mod Deadline
