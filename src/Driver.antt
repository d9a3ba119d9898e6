-- ===== src/Driver.antt =====
-- pkg/driver: what the two drivers share, and the drivers themselves.
pub mod Topology
pub mod Options
pub mod Identity
pub mod Cds
pub mod Bos
pub mod Serve
pub mod Run
