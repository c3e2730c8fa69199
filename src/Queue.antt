-- ===== src/Queue.antt =====
-- pkg/queue: the messages and the two channels.
pub mod Types
pub mod Single
pub mod Rabbit
