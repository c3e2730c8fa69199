-- ===== src/QldbStore.antt =====
-- pkg/qldbstore: the stores of CodeQL databases.
pub mod Interface
pub mod Partition
pub mod Filesystem
pub mod Hepc
