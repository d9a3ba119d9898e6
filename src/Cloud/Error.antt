-- ===== src/Cloud/Error.antt =====
-- pkg/cloud/error.go: the errors of the cloud services, without their messages.
use baiducloud_cce_csi_drive.Base.{ℕ, Bool, true, false, eqb}

pub data CloudError : Type 0 where
  -- a `*bce.BceServiceError` with its HTTP status
  service : ℕ → CloudError
  -- `ErrMultiVolumes`
  multi_volumes : CloudError
  -- an `*invalidArgumentError`
  invalid_argument : CloudError
  -- an error that wraps another
  wrapped : CloudError → CloudError
  -- any other error
  other : CloudError
  -- no Go error: a listing that did not end within the fuel of the model
  unfinished : CloudError

unfoldable pub err_is_not_found : CloudError → Bool
err_is_not_found (service status) = eqb status 404
err_is_not_found (wrapped e) = err_is_not_found e
err_is_not_found _ = false

unfoldable pub err_is_multi_volumes : CloudError → Bool
err_is_multi_volumes multi_volumes = true
err_is_multi_volumes (wrapped e) = err_is_multi_volumes e
err_is_multi_volumes _ = false

unfoldable pub err_is_invalid_argument : CloudError → Bool
err_is_invalid_argument invalid_argument = true
err_is_invalid_argument (wrapped e) = err_is_invalid_argument e
err_is_invalid_argument _ = false
