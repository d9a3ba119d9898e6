-- ===== src/Util.antt =====
-- pkg/util
pub mod Size
pub mod KeyMutex
pub mod Text
pub mod Number
pub mod Endpoint
pub mod FilePath
pub mod Os
pub mod Digest
