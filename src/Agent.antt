-- ===== src/Agent.antt =====
-- ron/agent: the approved tools, the tasks that run them, and the service that confirms them.
pub mod Models
pub mod Registry
pub mod Tasks
pub mod Service
pub mod Planner
