-- ===== src/Util/KeyMutex/Locks.antt =====
-- A key that is locked and unlocked again.
use baiducloud_cce_csi_drive.Base.{
  String, false, ◌≡◌, arith, contains, remove, remove-absent, eq_refl,
}
use baiducloud_cce_csi_drive.Util.KeyMutex.{KeyMutex, try_lock, unlock}

pub unlock-try_lock :
    (key : String) (m : KeyMutex) → contains key m.kv ≡ false → unlock key (try_lock key m).1 ≡ m
unfolding unlock try_lock remove
unlock-try_lock key m free = ground (arith, free, eq_refl key, remove-absent key m.kv free)
