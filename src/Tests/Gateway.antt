-- ===== src/Tests/Gateway.antt =====
-- The gateway's signer over a small node, whose state is the time, with requests of the SDK as lists of
-- headers.
use baiducloud_cce_csi_drive.Base.{
  ℕ, String, none, some, List, [], ◌∷◌, ◌==◌, ◌≡◌, ◌≢◌, refl, subst, arith, eq_iff, eq_refl, ok,
  err, lookup, if◌then◌else◌,
}
use mathlib.Core.List.{Memᴰ}
use baiducloud_cce_csi_drive.Base.Int.{pos}
use baiducloud_cce_csi_drive.Util.FilePath.{join}
use baiducloud_cce_csi_drive.Util.Text.{split}
use baiducloud_cce_csi_drive.Util.Number.{parse_int, refused_int, decimal}
use baiducloud_cce_csi_drive.Cloud.Gateway.{
  Node, BceSigner, new_bce_signer, set_volume_source, get_host_and_port, req_host,
}
use baiducloud_cce_csi_drive.Cloud.Gateway.Token.{
  bad_expired_at, from_volume, from_getter, try_next, volume_source, secret_source, getter_source,
  fetch, is_fresh, store, ensure_token,
}
use baiducloud_cce_csi_drive.Cloud.Gateway.Token.Sources.{Source}
use baiducloud_cce_csi_drive.Cloud.Gateway.Token.Fetched.{
  Renewal, ensure_token_refines, ensure_token_available, ensure_token_revives,
}
use baiducloud_cce_csi_drive.Cloud.Gateway.Sign.{
  RequestMethods, route, set_token, set_request_id, set_headers, sign, sign_all,
}
use baiducloud_cce_csi_drive.Cloud.Gateway.Sign.Kept.{IsRequest}
use baiducloud_cce_csi_drive.Cloud.Gateway.Sign.Routed.{IsSigned, sign_all_ok}

-- A node whose volume has a token, and an expiry that its text gives.
abbrev node : String → Node ℕ
node expiry = record {
  now = λ w. pos w;
  getenv = λ key w. "";
  read_file = λ file w. (
    if file == "/secret/token"
        then ok "t-2"
        else if file == "/secret/expiredAt"
        then ok expiry
        else err "no such file",
    w,
  );
  new_request_id = λ w. ("r-1", w);
}

abbrev signer : BceSigner ℕ (Unit {0})
signer = record {
  region = "gz";
  cluster_id = "c-1";
  token = "t-1";
  expired_at = pos 10;
  token_volume = "/secret";
  secret_getter = none;
  token_getter = none;
}

-- The signer of the source, with two of its sources set.
set_up :
    set_volume_source "/secret" (new_bce_signer {W = ℕ} {K = Unit {0}} "gz" "c-1")
    ≡ record signer { token = ""; expired_at = pos 0 }
unfolding set_volume_source new_bce_signer
set_up = refl

default_host : get_host_and_port "" "" ≡ ("cce-gateway.bj.baidubce.com", pos 80)
unfolding get_host_and_port
default_host = refl

pub region_host : req_host "gz" "" ≡ "cce-gateway.gz.baidubce.com:80"
unfolding req_host get_host_and_port decimal
region_host = refl

override_host : req_host "gz" "10.0.0.1:8080" ≡ "10.0.0.1:8080"
unfolding req_host get_host_and_port decimal parse_int split
override_host = refl

-- A token that has expired is read again.
renewed :
    ensure_token (node "100") tt (signer, 20)
    ≡ (ok tt, (record signer { token = "t-2"; expired_at = pos 100 }, 20))
unfolding ensure_token is_fresh fetch try_next volume_source secret_source getter_source from_volume
    join store parse_int
renewed = refl

ensure_token_refines_example :
    Renewal
      (node "100")
      tt
      signer
      20
      (ensure_token (node "100") tt (signer, 20)).0
      (ensure_token (node "100") tt (signer, 20)).1.0
      (ensure_token (node "100") tt (signer, 20)).1.1
ensure_token_refines_example = ensure_token_refines (node "100") signer tt 20

too_large : parse_int "99999999999999999999" ≡ none
unfolding parse_int
too_large = refl

ensure_token_revives_example :
    let old = (ensure_token (node "99999999999999999999") tt (signer, 20)).1.0 in
    ((ensure_token (node "99999999999999999999") tt (signer, 20)).0
      ≡ err (bad_expired_at "99999999999999999999"))
    × (old.token ≡ signer.token)
    × (ensure_token (node "99999999999999999999") tt (old, 50) ≡ (ok tt, (old, 50)))
unfolding is_fresh fetch try_next volume_source secret_source getter_source from_volume join
    refused_int
ensure_token_revives_example =
    ensure_token_revives (node "99999999999999999999") signer tt tt 20 50 (λ e. cc) refl refl
      too_large refl refl

-- A signer whose volume is missing, and whose getter always gives a token.
abbrev with_getter : BceSigner ℕ (Unit {0})
with_getter = record signer {
  token_volume = "/gone";
  token_getter = some (λ k w. (ok ("t-3", "100"), w));
}

abbrev volume_is_gone : Source ℕ
volume_is_gone = from_volume (node "100") "/gone"

abbrev always : Source ℕ
always = from_getter (λ k w. (ok ("t-3", "100"), w)) tt

getter_parses :
    (n : Source ℕ) (v : ℕ) (texts : String × String)
    → Memᴰ n (volume_is_gone ∷ always ∷ [])
    → (n v).0 ≡ ok texts
    → parse_int texts.1 ≢ none
unfolding from_volume from_getter join parse_int
getter_parses n v texts (Memᴰ.head p) h =
    let e : (volume_is_gone v).0 ≡ ok texts = subst (λ m. (m v).0 ≡ ok texts) p h in
    absurd (ground (arith, e))
getter_parses n v texts (Memᴰ.tail (Memᴰ.head p)) h =
    let e : (always v).0 ≡ ok texts = subst (λ m. (m v).0 ≡ ok texts) p h in
    let same : texts ≡ ("t-3", "100") = ground (arith, e) in rw same (λ x. cc)
getter_parses n v texts (Memᴰ.tail (Memᴰ.tail i)) h = absurd (elim i [ ])

ensure_token_available_example : (ensure_token (node "100") tt (with_getter, 20)).0 ≡ ok tt
unfolding volume_source secret_source getter_source from_volume from_getter join
ensure_token_available_example =
    ensure_token_available (node "100") with_getter tt 20 always (Memᴰ.tail (Memᴰ.head refl))
      (λ v. (("t-3", "100"), refl)) getter_parses

-- A request: its host, and its headers with the last one first.
abbrev pub http : RequestMethods (String × List (String × String))
http = record {
  header = λ key r. elim (lookup key r.1) [ some v ↦ v | none ↦ "" ];
  set_header = λ key value r. (r.0, (key, value) ∷ r.1);
  host = λ r. r.0;
  set_host = λ value r. (value, r.1);
  host_key = "Host";
  request_id_key = "x-bce-request-id";
}

pub http-IsRequest : IsRequest http
unfolding lookup
http-IsRequest = record {
  header_set = λ key value r. ground (arith, eq_refl key);
  header_other = λ key other value r n. ground (arith, eq_iff key other, n);
  header_host = λ key value r. refl;
  host_header = λ key value r. refl;
  host_set = λ value r. refl;
  host_key_lem = refl;
  request_id_key_lem = refl;
}

abbrev pub request : String × List (String × String)
request = ("bcc.gz.baidubce.com", [])

sign_all_ok_example :
    let s =
      sign http
        (node "100")
        tt
        (sign_all http (node "100") (tt ∷ tt ∷ []) (request, (signer, 20))) in
    (s.1.0.cluster_id ≡ "c-1")
    × IsSigned http http-IsRequest
        (node "100")
        ""
        (λ w. refl)
        "bcc.gz.baidubce.com"
        (req_host "gz" "")
        s.1.0
        s.0
unfolding sign_all sign ensure_token is_fresh fetch try_next volume_source secret_source
    getter_source from_volume join store parse_int set_headers set_token set_request_id route lookup
    req_host get_host_and_port decimal
sign_all_ok_example =
    sign_all_ok http http-IsRequest (node "100") "" (λ w. refl) (tt ∷ tt ∷ []) tt request signer 20
      (rw region_host (λ e. cc)) refl
