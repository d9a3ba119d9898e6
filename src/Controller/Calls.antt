-- ===== src/Controller/Calls.antt =====
-- Which calls that change the cloud each handler makes, and when.
pub mod Attaching
pub mod Answers
pub mod Sizing
pub mod Creating
pub mod Contract
