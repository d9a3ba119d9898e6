-- ===== src/Controller.antt =====
-- pkg/driver/cds/controller.go
pub mod Capacity
pub mod Capability
pub mod Zone
pub mod Parameters
pub mod Server
pub mod Create
pub mod Delete
pub mod Publish
pub mod Unpublish
pub mod Expand
pub mod Validate
pub mod Retry
pub mod Flights
pub mod Rpc
pub mod Calls
