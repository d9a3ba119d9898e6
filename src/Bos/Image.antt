-- ===== src/Bos/Image.antt =====
-- `waitForImagePullFinish` and `generateBosfsCMD`.
use baiducloud_cce_csi_drive.Base.{
  String, not, Option, none, some, List, [], ◌∷◌, ◌++◌, ◌==◌, ◌≢◌, eq_iff, arith, Result, ok, err,
  if◌then◌else◌,
}
use baiducloud_cce_csi_drive.Util.FilePath.{join_text}
use baiducloud_cce_csi_drive.Bos.Engine.{
  PullEvent, message, unreadable, timed_out, MountError, image_failed, timeout,
}

-- The message, whose fields keep their values where the next JSON value does not have them, as Go
-- decodes into the same variable.
pub record PullMessage : Type 0 where
  pub error : String
  pub error_message : String

abbrev pub or_kept : Option String → String → String
or_kept none s = s
or_kept (some s) _ = s

-- The tests after the loop.
unfoldable pub judge_message : PullMessage → Result MountError (Unit {0})
judge_message m =
    if not (m.error == "")
    then err image_failed
    else if not (m.error_message == "")
    then err image_failed
    else ok tt

-- The loop to the end of the stream, with the message so far.
unfoldable pub wait_for_image_pull_finish :
    PullMessage → List PullEvent → Result MountError (Unit {0})
wait_for_image_pull_finish m [] = judge_message m
wait_for_image_pull_finish m (message e t ∷ events) =
    wait_for_image_pull_finish
      (record { error = or_kept e m.error; error_message = or_kept t m.error_message }) events
wait_for_image_pull_finish m (unreadable ∷ events) = err image_failed
wait_for_image_pull_finish m (timed_out ∷ events) = err timeout

abbrev pub no_message : PullMessage
no_message = record { error = ""; error_message = "" }

unfoldable pub generate_bosfs_cmd : String → String → List String → List String → String
unfolding join_text
generate_bosfs_cmd source target options sensitive_options =
    join_text " " (("bosfs" ∷ source ∷ target ∷ "-f" ∷ []) ++ options ++ sensitive_options)

-- No event reports an error in the field `errorDetail`.
abbrev pub AreSilent : List PullEvent → Type 0
AreSilent [] = Unit
AreSilent (message none t ∷ events) = AreSilent events
AreSilent (message (some e) t ∷ events) = ⊥
AreSilent (unreadable ∷ events) = AreSilent events
AreSilent (timed_out ∷ events) = AreSilent events

error_stays :
    (m : PullMessage) (events : List PullEvent)
    → m.error ≢ ""
    → AreSilent events
    → wait_for_image_pull_finish m events ≢ ok tt
unfolding wait_for_image_pull_finish judge_message
error_stays m [] h q = λ w. ground (arith, h, w, eq_iff m.error "")
error_stays m (message none t ∷ events) h q =
    error_stays (record { error = m.error; error_message = or_kept t m.error_message }) events h q
error_stays m (message (some e) t ∷ events) h q = absurd q
error_stays m (unreadable ∷ events) h q = λ w. ground (arith, w)
error_stays m (timed_out ∷ events) h q = λ w. ground (arith, w)

-- An error that is reported anywhere in the stream is not lost: where no later event reports an error,
-- so that none is overwritten, the pull does not succeed.
pub wait_for_image_pull_finish_error :
    (m : PullMessage) (e : String) (t : Option String) (before after : List PullEvent)
    → e ≢ ""
    → AreSilent after
    → wait_for_image_pull_finish m (before ++ (message (some e) t ∷ after)) ≢ ok tt
unfolding wait_for_image_pull_finish
wait_for_image_pull_finish_error m e t [] after h q = error_stays _ after h q
wait_for_image_pull_finish_error m e t (message f u ∷ before) after h q =
    wait_for_image_pull_finish_error _ e t before after h q
wait_for_image_pull_finish_error m e t (unreadable ∷ before) after h q = λ w. ground (arith, w)
wait_for_image_pull_finish_error m e t (timed_out ∷ before) after h q = λ w. ground (arith, w)
