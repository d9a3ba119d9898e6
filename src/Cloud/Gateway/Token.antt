-- ===== src/Cloud/Gateway/Token.antt =====
-- `ensureToken`: the token of the signer, fetched anew where there is none or it has expired.
pub mod Sources
pub mod Fetched
use baiducloud_cce_csi_drive.Base.{
  String, Bool, true, false, not, ◌&&◌, Option, none, some, List, [], ◌∷◌, ◌==◌, Result, ok, err,
  Exec, ◌>>=◌, ◌>>◌, pure, fail, or_fail, lookup, is_some, if◌then◌else◌,
}
use baiducloud_cce_csi_drive.Base.Int.{ℤ, ltb_ℤ}
use baiducloud_cce_csi_drive.Util.FilePath.{join}
use baiducloud_cce_csi_drive.Util.Number.{parse_int, refused_int}
use baiducloud_cce_csi_drive.Cloud.Gateway.{
  Node, BceSigner, token_key, expired_at_key, token_secret_name, token_secret_namespace,
}

-- `lastErr`, and the error of the expiry. The text of an error is kept for the source that gave it.
pub data FetchError : Type 0 where
  read_failed : (file message : String) → FetchError
  secret_failed : (message : String) → FetchError
  secret_is_nil : FetchError
  key_missing : (key : String) → FetchError
  getter_failed : (message : String) → FetchError

pub data TokenError : Type 0 where
  no_source_succeeded : (last_err : Option FetchError) → TokenError
  bad_expired_at : (text : String) → TokenError

-- `succeeded` with the fetched texts, or `lastErr`.
abbrev pub Fetch : Type 0 → Type 0
Fetch W = Exec W (Option FetchError) (String × String)

module _ {W : Type 0} where
  -- The token and its expiry from the files of the volume.
  unfoldable pub from_volume : Node W → String → Exec W FetchError (String × String)
  from_volume node volume = do
    token ←
        or_fail (node.read_file (join (volume ∷ token_key ∷ [])))
          (read_failed (join (volume ∷ token_key ∷ [])))
    expired_at ←
        or_fail (node.read_file (join (volume ∷ expired_at_key ∷ [])))
          (read_failed (join (volume ∷ expired_at_key ∷ [])))
    pure (token, expired_at)

  -- An entry of the secret's `Data`.
  unfoldable pub secret_key : String → List (String × String) → Exec W FetchError String
  secret_key key entries = elim (lookup key entries) [
    | some v ↦ pure v
    | none ↦ fail (key_missing key)
  ]

  unfoldable pub from_secret :
      (String → String → Exec W String (Option (List (String × String))))
      → Exec W FetchError (String × String)
  from_secret getter = do
    secret ← or_fail (getter token_secret_namespace token_secret_name) secret_failed
    entries ← (elim secret [ some entries ↦ pure entries | none ↦ fail secret_is_nil ])
    token ← secret_key token_key entries
    expired_at ← secret_key expired_at_key entries
    pure (token, expired_at)

  -- `if !succeeded && …`: a source that is set is asked where the fetch has not succeeded yet.
  unfoldable pub try_next : Fetch W → Option (Exec W FetchError (String × String)) → Fetch W
  try_next before none s = before s
  try_next before (some source) s = elim (before s).0 [
    | ok texts ↦ before s
    | err last_err ↦ or_fail source (λ e. some e) (before s).1
  ]

module _ {W K : Type 0} where
  unfoldable pub from_getter :
      (K → Exec W String (String × String)) → K → Exec W FetchError (String × String)
  from_getter getter k = or_fail (getter k) getter_failed

  -- The sources of the signer; one that is not set is `none`.
  unfoldable pub volume_source :
      Node W → BceSigner W K → Option (Exec W FetchError (String × String))
  volume_source node sg =
      if sg.token_volume == "" then none else some (from_volume node sg.token_volume)

  unfoldable pub secret_source : BceSigner W K → Option (Exec W FetchError (String × String))
  secret_source sg = elim sg.secret_getter [ none ↦ none | some g ↦ some (from_secret g) ]

  unfoldable pub getter_source : BceSigner W K → K → Option (Exec W FetchError (String × String))
  getter_source sg k = elim sg.token_getter [ none ↦ none | some g ↦ some (from_getter g k) ]

  unfoldable pub fetch : Node W → BceSigner W K → K → Fetch W
  fetch node sg k =
      try_next (try_next (try_next (fail none) (volume_source node sg)) (secret_source sg))
        (getter_source sg k)

  -- `cg.Token != "" && cg.clock.Now().Unix() < cg.ExpiredAt`
  unfoldable pub is_fresh : Node W → BceSigner W K → W → Bool
  is_fresh node sg w = not (sg.token == "") && ltb_ℤ (node.now w) sg.expired_at

  -- The end of `ensureToken`. `cg.ExpiredAt` is assigned before the error is looked at.
  unfoldable pub store :
      String × String → BceSigner W K → Result TokenError (Unit {0}) × BceSigner W K
  store (token, expired_at) sg = elim (parse_int expired_at) [
    | some n ↦ (ok tt, record sg { token = token; expired_at = n })
    | none ↦ (err (bad_expired_at expired_at), record sg { expired_at = refused_int expired_at })
  ]

  abbrev finish :
      BceSigner W K
      → Result (Option FetchError) (String × String) × W
      → Result TokenError (Unit {0}) × (BceSigner W K × W)
  finish sg (err last_err, w) = (err (no_source_succeeded last_err), (sg, w))
  finish sg (ok texts, w) = let r = store texts sg in (r.0, (r.1, w))

  unfoldable pub ensure_token : Node W → K → Exec (BceSigner W K × W) TokenError (Unit {0})
  ensure_token node k (sg, w) =
      if is_fresh node sg w then (ok tt, (sg, w)) else finish sg (fetch node sg k w)
