-- ===== src/Util/KeyMutex.antt =====
-- pkg/util/keymutex.go. The inner `sync.Mutex` makes each method one atomic step; the state is the
-- set of locked keys.
pub mod Threads
pub mod Locks
use baiducloud_cce_csi_drive.Base.{String, Bool, true, false, List, [], ◌∷◌, if◌then◌else◌}
use baiducloud_cce_csi_drive.Base.{contains, remove}

pub record KeyMutex : Type 0 where
  pub kv : List String

unfoldable pub new_key_mutex : KeyMutex
new_key_mutex = record { kv = [] }

unfoldable pub try_lock : String → KeyMutex → Bool × KeyMutex
try_lock key m = if contains key m.kv then (false, m) else (true, record { kv = key ∷ m.kv })

unfoldable pub unlock : String → KeyMutex → KeyMutex
unlock key m = record { kv = remove key m.kv }
