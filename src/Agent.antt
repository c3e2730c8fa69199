-- ===== src/Agent.antt =====
-- pkg/agent/agent.go: the worker that takes jobs from the queue and sends results back.
pub mod Job
pub mod Worker
pub mod Pool
pub mod Archive
pub mod Outcomes
