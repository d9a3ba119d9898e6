-- ===== src/Bos.antt =====
-- pkg/driver/bos/node.go and pkg/driver/bos/mount.go, with pkg/cloud/bos.go.
pub mod Engine
pub mod Image
pub mod Container
pub mod Source
pub mod Publish
pub mod Unpublish
pub mod Installed
