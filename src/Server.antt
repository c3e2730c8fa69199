-- ===== src/Server.antt =====
-- pkg/server: the HTTP handlers of the commander.
pub mod Http
pub mod Types
pub mod Status
pub mod Download
pub mod Submit
pub mod Results
