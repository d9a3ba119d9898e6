-- ===== src/Util/Os.antt =====
-- The errors of Go's `os`, a parameter, with what `os.IsExist` and `os.IsNotExist` say of them.
use baiducloud_cce_csi_drive.Base.{String}

pub data OsError : Type 0 where
  is_exist is_not_exist : OsError
  other : (message : String) → OsError
