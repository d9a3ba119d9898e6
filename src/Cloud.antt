-- ===== src/Cloud.antt =====
-- pkg/cloud
pub mod Error
pub mod Auth
pub mod Volume
pub mod Service
pub mod Calls
pub mod Metadata
pub mod Log
pub mod Sdk
pub mod Cds
pub mod Clients
pub mod Gateway
