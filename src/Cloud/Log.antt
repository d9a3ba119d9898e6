-- ===== src/Cloud/Log.antt =====
-- pkg/cloud/log.go: the level and the handler of the SDK's log, from glog's flags.
use baiducloud_cce_csi_drive.Base.{◌+◌, Bool, Option, none, some, if◌then◌else◌}
use baiducloud_cce_csi_drive.Base.Int.{ℤ, pos, pos_part, neg_part, sub_ℕ, ltb_ℤ}

-- `logToStderrFlagValue` and `vFlagValue`.
pub record LogFlags : Type 0 where
  pub log_to_stderr : Bool
  pub v : ℤ

-- The two flags as they are looked up: `none` where there is no flag of the name and the type.
unfoldable pub parse_log_flags : Option Bool → Option ℤ → LogFlags → LogFlags
parse_log_flags log_to_stderr v old = record {
  log_to_stderr = elim log_to_stderr [ some b ↦ b | none ↦ old.log_to_stderr ];
  v = elim v [ some n ↦ n | none ↦ old.v ];
}

-- What is set of the SDK's log: the handler `log.STDERR`, or none, and the level.
pub record SdkLog : Type 0 where
  pub to_stderr : Bool
  pub level : ℤ

-- a - b; the values are small.
abbrev minus : ℤ → ℤ → ℤ
minus a b = sub_ℕ (pos_part a + neg_part b) (neg_part a + pos_part b)

-- `InitLog`, by the SDK's constant `log.PANIC`.
unfoldable pub init_log : (panic : ℤ) → Option Bool → Option ℤ → LogFlags → SdkLog × LogFlags
unfolding parse_log_flags
init_log panic log_to_stderr v old =
    let flags = parse_log_flags log_to_stderr v old in
    let level = minus panic flags.v in
    (
      record {
        to_stderr = flags.log_to_stderr;
        level = if ltb_ℤ level (pos 0) then pos 0 else level;
      },
      flags,
    )
