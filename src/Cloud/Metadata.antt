-- ===== src/Cloud/Metadata.antt =====
-- pkg/cloud/metadata.go: the metadata service of a node, over an HTTP client, which is Go's.
use baiducloud_cce_csi_drive.Base.{
  String, ◌==◌, Exec, ◌>>=◌, ◌>>◌, pure, or_fail, refuse_if, ◌≡◌, ◌≢◌, arith, ok, inl, inr,
  Result-cases, eq_iff,
}

abbrev pub bcc_meta_data_instance_short_id_endpoint : String
bcc_meta_data_instance_short_id_endpoint =
    "http://169.254.169.254/2009-04-04/meta-data/instance-shortid"

abbrev pub bcc_meta_data_a_zone_endpoint : String
bcc_meta_data_a_zone_endpoint = "http://169.254.169.254/2009-04-04/meta-data/azone"

-- `http.DefaultClient.Get` and `ioutil.ReadAll` of the body of a response. An error is its text.
pub record HttpClient (W B : Type 0) : Type 0 where
  pub get : (url : String) → Exec W String B
  pub read_all : B → Exec W String String

pub data MetaDataError : Type 0 where
  http_failed : (message : String) → MetaDataError
  empty_instance_id empty_zone : MetaDataError

pub record MetaData : Type 0 where
  pub instance_id : String
  pub zone : String

module _ {W B : Type 0} (http : HttpClient W B) where
  -- The body at an endpoint, which is not empty.
  unfoldable pub read_endpoint : (url : String) → MetaDataError → Exec W MetaDataError String
  read_endpoint url empty = do
    response ← or_fail (http.get url) http_failed
    body ← or_fail (http.read_all response) http_failed
    refuse_if (body == "") empty
    pure body

  unfoldable pub new_meta_data_service : Exec W MetaDataError MetaData
  new_meta_data_service = do
    instance_id ← read_endpoint bcc_meta_data_instance_short_id_endpoint empty_instance_id
    zone ← read_endpoint bcc_meta_data_a_zone_endpoint empty_zone
    pure (record { instance_id = instance_id; zone = zone })

  read_endpoint_ok :
      (url : String) (empty : MetaDataError) (w : W) {body : String}
      → (read_endpoint url empty w).0 ≡ ok body
      → body ≢ ""
  unfolding read_endpoint
  read_endpoint_ok url empty w {body} h = elim (Result-cases (http.get url w).0) [
    | inr (x, e) ↦ absurd (ground (arith, e))
    | inl (response, e) ↦ elim (Result-cases (http.read_all response (http.get url w).1).0) [
      | inr (x, f) ↦ absurd (ground (arith, e, f))
      | inl (b, f) ↦ ground (arith, e, f, h, eq_iff b "")
    ]
  ]

  pub new_meta_data_service_ok :
      (w : W) {m : MetaData}
      → (new_meta_data_service w).0 ≡ ok m
      → (m.instance_id ≢ "") × (m.zone ≢ "")
  unfolding new_meta_data_service
  new_meta_data_service_ok w {m} h =
      let a = read_endpoint bcc_meta_data_instance_short_id_endpoint empty_instance_id w in
      elim (Result-cases a.0) [
        | inr (x, e) ↦ absurd (ground (arith, e))
        | inl (id, e) ↦
            elim (Result-cases (read_endpoint bcc_meta_data_a_zone_endpoint empty_zone a.1).0) [
              | inr (x, f) ↦ absurd (ground (arith, e, f))
              | inl (z, f) ↦
                  let i =
                    read_endpoint_ok bcc_meta_data_instance_short_id_endpoint empty_instance_id w
                      e in
                  let j = read_endpoint_ok bcc_meta_data_a_zone_endpoint empty_zone a.1 f in
                  ground (arith, e, f, h, i, j)
            ]
      ]
