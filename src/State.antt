-- ===== src/State.antt =====
-- pkg/state: the interface of the server's state, the rule for a session's status, and the state
-- in memory.
pub mod Interface
pub mod Laws
pub mod Summary
pub mod Local
pub mod Postgres
mod Tests
