-- ===== src/Ai.antt =====
-- ron/ai: how the model requests of the subsystems share one model, and what happens when the cloud is out.
pub mod Scheduler
pub mod Hybrid
