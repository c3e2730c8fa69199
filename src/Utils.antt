-- ===== src/Utils.antt =====
-- utils, and the base64 coding that it and pkg/common use.
pub mod Base64
pub mod Archive
pub mod Paths
pub mod Extract
