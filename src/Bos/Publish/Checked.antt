-- ===== src/Bos/Publish/Checked.antt =====
-- What a successful publishing of a bucket has checked.
use baiducloud_cce_csi_drive.Base.{
  String, true, ◌≡◌, ◌≢◌, ◌∙◌, ap, subst, arith, Result, ok, inl, inr, Result-cases, Exec, eq_iff,
}
use baiducloud_cce_csi_drive.Cloud.Auth.{Auth, get_auth_mode_access_key}
use baiducloud_cce_csi_drive.Cloud.Sdk.{SdkError}
use baiducloud_cce_csi_drive.Bos.Source.{bucket_name}
use baiducloud_cce_csi_drive.Bos.Publish.{
  BosMounter, BosPublishRequest, bucket_found, bucket_exists, check_request, check_bucket,
  bos_publish_volume,
}

module _ {F : Type 0} (m : BosMounter F) (head_bucket : Auth → String → Exec F SdkError (Unit {0}))
    (md5 : String → String) (endpoint : String) where
  -- The two ways for the answer that the bucket exists.
  bucket_found-true : (r : Result SdkError (Unit {0})) → bucket_found r ≡ ok true → r ≡ ok tt
  unfolding bucket_found
  bucket_found-true r h = ground (arith, h)

  check_bucket_ok :
      (req : BosPublishRequest) (s : F) (auth : Auth)
      → (check_bucket m head_bucket md5 endpoint req s).0 ≡ ok auth
      → (get_auth_mode_access_key req.secrets ≡ ok auth)
        × (bucket_name req.volume_id ≢ "")
        × ((head_bucket auth (bucket_name req.volume_id) s).0 ≡ ok tt)
  unfolding check_bucket bucket_exists
  check_bucket_ok req s auth h = elim (Result-cases (get_auth_mode_access_key req.secrets)) [
    | inr (x, e) ↦ absurd (ground (arith, e))
    | inl (a, e) ↦
        let b = bucket_name req.volume_id in
        elim (Result-cases (bucket_found (head_bucket a b s).0)) [
          | inr (x, f) ↦ absurd (ground (arith, e, f))
          | inl (there, f) ↦
              let same : a ≡ auth = ground (arith, e, f) in
              (
                e ∙ ap ok same,
                ground (arith, e, f, eq_iff b ""),
                subst (λ z. (head_bucket z b s).0 ≡ ok tt) same
                    (bucket_found-true (head_bucket a b s).0 (ground (arith, e, f))),
              )
        ]
  ]

  check_request_same :
      (req : BosPublishRequest) (s : F) → (check_request m head_bucket md5 endpoint req s).1 ≡ s
  unfolding check_request
  check_request_same req s = ground arith

  -- A bucket is published successfully only for an authorisation from the secrets of the request, and
  -- where the service answered for this authorisation that the bucket before the first slash of the
  -- volume's identifier exists.
  pub bos_publish_volume_ok :
      (req : BosPublishRequest) (s : F)
      → (bos_publish_volume m head_bucket md5 endpoint req s).0 ≡ ok tt
      → (auth : Auth) × (get_auth_mode_access_key req.secrets ≡ ok auth)
        × (bucket_name req.volume_id ≢ "")
        × ((head_bucket auth (bucket_name req.volume_id) s).0 ≡ ok tt)
  unfolding bos_publish_volume
  bos_publish_volume_ok req s h =
      let same = check_request_same req s in
      elim (Result-cases (check_request m head_bucket md5 endpoint req s).0) [
        | inr (x, e) ↦ absurd (ground (arith, e))
        | inl (flags, e) ↦ elim (Result-cases (check_bucket m head_bucket md5 endpoint req s).0) [
          | inr (x, f) ↦ absurd (ground (arith, e, same, f))
          | inl (auth, f) ↦ let (a, b, c) = check_bucket_ok req s auth f in (auth, a, b, c)
        ]
      ]
