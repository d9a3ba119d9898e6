-- ===== src/Node.antt =====
-- pkg/driver/cds/node.go and pkg/driver/cds/mount.go
pub mod Mounter
pub mod Stage
pub mod Unstage
pub mod Publish
pub mod Stats
pub mod Expand
pub mod Device
pub mod Files
pub mod Installed
pub mod Mounts
pub mod Staged
pub mod Unstaged
pub mod Published
pub mod Locked
