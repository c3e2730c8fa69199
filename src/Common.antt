-- ===== src/Common.antt =====
-- pkg/common: names, statuses, errors and the messages of the API.
pub mod Types
pub mod Errors
pub mod Api
pub mod JobSpecs
