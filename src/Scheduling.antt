-- ===== src/Scheduling.antt =====
-- cmd/dstest/scheduling: the strategies that choose the next message, and the client requests.
pub mod Decision
pub mod Requests
pub mod Quota
pub mod RandomScheduler
pub mod Pct
pub mod Replay
pub mod Ql
pub mod Strategy
