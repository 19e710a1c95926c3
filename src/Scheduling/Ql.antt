-- ===== src/Scheduling/Ql.antt =====
-- cmd/dstest/scheduling/ql: the tables of action values, the agent, and the hash of a state.
pub mod DynamicMemTable
pub mod MemTable
pub mod Tables
pub mod Agent
pub mod Adapting
pub mod Hashing
pub mod QlScheduler
