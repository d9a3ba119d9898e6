-- ===== src/Tests.antt =====
-- The results of the library at concrete inputs, and runs of the definitions.
mod Clouds
mod Sizes
mod Creation
mod Flights
mod Attachment
mod Retries
mod Nodes
mod Handed
mod Installed
mod Buckets
mod Gateway
mod Clients
mod Listed
mod Programs
mod Waiting
