-- ===== src/Codeql.antt =====
-- pkg/codeql: running a query pack on a database, and what its results are.
pub mod Types
pub mod Bqrs
pub mod Sarif
pub mod Walk
pub mod Commands
pub mod Zip
pub mod Provenance
pub mod Toolchain
pub mod Packs
pub mod Run
