-- ===== src/ArtifactStore.antt =====
-- pkg/artifactstore: locations, the store interface, and the store in memory.
pub mod Types
pub mod Memory
pub mod Minio
mod Tests
