-- ===== src/Cloud/Gateway/Token/Fetched.antt =====
-- What the signer's token is after `ensureToken`.
use baiducloud_cce_csi_drive.Base.{
  String, true, false, Option, none, some, ◌≡◌, ◌≢◌, ◌⊎◌, ◌==◌, refl, sym, subst, inl, inr, arith,
  eq_iff, Result, ok, err, Result-cases, Bool-cases, Option-cases,
}
use Prim.Native.Nat.{◌^◌, ◌-◌}
use mathlib.Core.List.{Memᴰ}
use baiducloud_cce_csi_drive.Base.Int.{ℤ, pos, ltb_ℤ}
use baiducloud_cce_csi_drive.Util.Number.{parse_int, refused_int}
use baiducloud_cce_csi_drive.Cloud.Gateway.{Node, BceSigner}
use baiducloud_cce_csi_drive.Cloud.Gateway.Token.{
  FetchError, TokenError, bad_expired_at, no_source_succeeded, fetch, is_fresh, store, ensure_token,
}
use baiducloud_cce_csi_drive.Cloud.Gateway.Token.Sources.{
  Source, sources, first_success, first_success_ok, first_success_available, fetch_lem,
}

module _ {W K : Type 0} (node : Node W) where
  -- There is no token, or the time of its expiry has come.
  abbrev pub HasExpired : BceSigner W K → W → Type 0
  HasExpired sg w = (sg.token ≡ "") ⊎ (ltb_ℤ (node.now w) sg.expired_at ≡ false)

  is_fresh_ok :
      (sg : BceSigner W K) (w : W)
      → is_fresh node sg w ≡ true
      → (sg.token ≢ "") × (ltb_ℤ (node.now w) sg.expired_at ≡ true)
  unfolding is_fresh
  is_fresh_ok sg w h = (ground (arith, h, eq_iff sg.token ""), ground (arith, h))

  is_fresh-HasExpired : (sg : BceSigner W K) (w : W) → is_fresh node sg w ≡ false → HasExpired sg w
  unfolding is_fresh
  is_fresh-HasExpired sg w h = elim (Bool-cases (sg.token == "")) [
    | inl e ↦ inl ((eq_iff sg.token "").0 e)
    | inr e ↦ inr (ground (arith, h, e))
  ]

  -- What `ensureToken` promises of the signer and the outside, step by step.
  pub data Renewal (k : K) (sg : BceSigner W K) (w : W)
      : Result TokenError (Unit {0}) → BceSigner W K → W → Type 0 where
    kept : sg.token ≢ "" → ltb_ℤ (node.now w) sg.expired_at ≡ true → Renewal k sg w (ok tt) sg w
    renewed :
        {token text : String} {n : ℤ} {v : W}
        → HasExpired sg w
        → first_success (sources node sg k) none w ≡ (ok (token, text), v)
        → parse_int text ≡ some n
        → Renewal k sg w (ok tt) (record sg { token = token; expired_at = n }) v
    refused :
        {token text : String} {v : W}
        → HasExpired sg w
        → first_success (sources node sg k) none w ≡ (ok (token, text), v)
        → parse_int text ≡ none
        → Renewal k sg w (err (bad_expired_at text)) (record sg { expired_at = refused_int text }) v
    failed :
        {last_err : Option FetchError} {v : W}
        → HasExpired sg w
        → first_success (sources node sg k) none w ≡ (err last_err, v)
        → Renewal k sg w (err (no_source_succeeded last_err)) sg v

  ensure_token_fresh :
      (sg : BceSigner W K) (k : K) (w : W)
      → is_fresh node sg w ≡ true
      → ensure_token node k (sg, w) ≡ (ok tt, (sg, w))
  unfolding ensure_token
  ensure_token_fresh sg k w h = ground (arith, h)

  ensure_token-Renewal :
      {k : K} {sg tg : BceSigner W K} {w v : W} {r : Result TokenError (Unit {0})}
      → ensure_token node k (sg, w) ≡ (r, (tg, v))
      → Renewal k sg w r tg v
      → Renewal k sg w
          (ensure_token node k (sg, w)).0
          (ensure_token node k (sg, w)).1.0
          (ensure_token node k (sg, w)).1.1
  ensure_token-Renewal {k} {sg} {w = w} e = subst (λ x. Renewal k sg w x.0 x.1.0 x.1.1) (sym e)

  -- Over any sources, an `ensureToken` is a step of the specification: it keeps a token that is not
  -- empty and whose expiry lies after the present time, without asking for anything; and otherwise
  -- takes the texts of the first that succeeds of the volume, the secret and the getter of tokens, as
  -- far as they are set, or is refused, where their expiry is no integer, or where none succeeds.
  pub ensure_token_refines :
      (sg : BceSigner W K) (k : K) (w : W)
      → Renewal k sg w
          (ensure_token node k (sg, w)).0
          (ensure_token node k (sg, w)).1.0
          (ensure_token node k (sg, w)).1.1
  unfolding ensure_token store
  ensure_token_refines sg k w =
      let v = (fetch node sg k w).1 in
      elim (Bool-cases (is_fresh node sg w)) [
        | inl h ↦
            ensure_token-Renewal (ground (arith, h))
              (kept (is_fresh_ok sg w h).0 (is_fresh_ok sg w h).1)
        | inr h ↦ elim (Result-cases (fetch node sg k w).0) [
          | inr (x, e) ↦ ensure_token-Renewal (ground (arith, h, e)) (
              failed {last_err = x} {v = v} (is_fresh-HasExpired sg w h)
                (ground (arith, e, fetch_lem node sg k w)))
          | inl ((token, text), e) ↦
              let f : first_success (sources node sg k) none w ≡ (ok (token, text), v) =
                ground (arith, e, fetch_lem node sg k w) in
              elim (Option-cases (parse_int text)) [
                | inl p ↦
                    ensure_token-Renewal (ground (arith, h, e, p))
                      (refused (is_fresh-HasExpired sg w h) f p)
                | inr (n, p) ↦
                    ensure_token-Renewal (ground (arith, h, e, p))
                      (renewed (is_fresh-HasExpired sg w h) f p)
              ]
        ]
      ]

  -- Where a source is set that always succeeds, and every expiry that a source gives is an integer,
  -- the signer gets a token whatever the other sources do.
  pub ensure_token_available :
      (sg : BceSigner W K) (k : K) (w : W) (m : Source W)
      → Memᴰ m (sources node sg k)
      → ((v : W) → (texts : String × String) × ((m v).0 ≡ ok texts))
      → ((n : Source W) (v : W) (texts : String × String)
          → Memᴰ n (sources node sg k)
          → (n v).0 ≡ ok texts
          → parse_int texts.1 ≢ none)
      → (ensure_token node k (sg, w)).0 ≡ ok tt
  unfolding ensure_token store
  ensure_token_available sg k w m i available parses = elim (Bool-cases (is_fresh node sg w)) [
    | inl e ↦ ground (arith, e)
    | inr e ↦
        let (texts, f) = first_success_available m (sources node sg k) none w i available in
        let (n, j, v, g) = first_success_ok (sources node sg k) none w f in
        elim (Option-cases (parse_int texts.1)) [
          | inl p ↦ absurd (parses n v texts j g p)
          | inr (x, p) ↦ ground (arith, e, f, p, fetch_lem node sg k w)
        ]
  ]

  -- Where a token has expired, and the expiry of the fetched one is refused as out of range above,
  -- the expired token counts as fresh from then on, at any time below the largest 64-bit integer:
  -- every later call succeeds with it and asks no source.
  pub ensure_token_revives :
      (sg : BceSigner W K) (k l : K) (w u : W) {token text : String} {v : W}
      → sg.token ≢ ""
      → is_fresh node sg w ≡ false
      → fetch node sg k w ≡ (ok (token, text), v)
      → parse_int text ≡ none
      → refused_int text ≡ pos (2 ^ 63 - 1)
      → ltb_ℤ (node.now u) (pos (2 ^ 63 - 1)) ≡ true
      → let old = (ensure_token node k (sg, w)).1.0 in
        ((ensure_token node k (sg, w)).0 ≡ err (bad_expired_at text))
        × (old.token ≡ sg.token)
        × (ensure_token node l (old, u) ≡ (ok tt, (old, u)))
  unfolding ensure_token store is_fresh
  ensure_token_revives sg k l w u {text = text} {v} t h f p q now =
      let spoilt : BceSigner W K = record sg { expired_at = refused_int text } in
      let e : ensure_token node k (sg, w) ≡ (err (bad_expired_at text), (spoilt, v)) =
        ground (arith, h, f, p) in
      rw e
        (refl, refl, ensure_token_fresh spoilt l u (ground (arith, eq_iff sg.token "", t, q, now)))

  Renewal-keeps :
      {k : K} {sg tg : BceSigner W K} {w v : W} {r : Result TokenError (Unit {0})}
      → Renewal k sg w r tg v
      → (tg.region ≡ sg.region) × (tg.cluster_id ≡ sg.cluster_id)
  Renewal-keeps (kept n h) = (refl, refl)
  Renewal-keeps (renewed h e p) = (refl, refl)
  Renewal-keeps (refused h e p) = (refl, refl)
  Renewal-keeps (failed h e) = (refl, refl)

  pub ensure_token_keeps :
      (sg : BceSigner W K) (k : K) (w : W)
      → let tg = (ensure_token node k (sg, w)).1.0 in
        (tg.region ≡ sg.region) × (tg.cluster_id ≡ sg.cluster_id)
  ensure_token_keeps sg k w = Renewal-keeps (ensure_token_refines sg k w)
