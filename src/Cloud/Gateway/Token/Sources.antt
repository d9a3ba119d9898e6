-- ===== src/Cloud/Gateway/Token/Sources.antt =====
-- The sources of the token, one after the other.
use baiducloud_cce_csi_drive.Base.{
  String, Option, none, some, List, [], ◌∷◌, ◌++◌, ◌==◌, if◌then◌else◌, ap, Bool-cases,
  Option-cases, ◌≡◌, refl, sym, subst, ◌∙◌, inl, inr, arith, fail, Result, ok, err, Exec,
  Result-cases,
}
use mathlib.Core.List.{Memᴰ}
use baiducloud_cce_csi_drive.Cloud.Gateway.{Node, BceSigner}
use baiducloud_cce_csi_drive.Cloud.Gateway.Token.{
  FetchError, Fetch, from_volume, from_secret, from_getter, try_next, volume_source, secret_source,
  getter_source, fetch,
}

-- A source of the token.
abbrev pub Source : Type 0 → Type 0
Source W = Exec W FetchError (String × String)

-- The sources that are set, in their order.
abbrev pub set_sources : {W : Type 0} → List (Option (Source W)) → List (Source W)
set_sources [] = []
set_sources (none ∷ ms) = set_sources ms
set_sources (some m ∷ ms) = m ∷ set_sources ms

-- What asks the volume, where the signer has one.
abbrev of_volume : {W : Type 0} → Node W → String → List (Source W)
of_volume node volume = if volume == "" then [] else from_volume node volume ∷ []

abbrev of_set : {W X : Type 0} → (X → Source W) → Option X → List (Source W)
of_set ask none = []
of_set ask (some x) = ask x ∷ []

-- The signer's sources: its volume, the secret, and its getter of tokens, as far as they are set.
abbrev pub sources : {W K : Type 0} → Node W → BceSigner W K → K → List (Source W)
sources node sg k =
    of_volume node sg.token_volume
    ++ (of_set from_secret sg.secret_getter ++ of_set (λ g. from_getter g k) sg.token_getter)

set_sources-append :
    {W : Type 0} (m : Option (Source W)) (ms : List (Option (Source W))) (xs ys : List (Source W))
    → set_sources (m ∷ []) ≡ xs
    → set_sources ms ≡ ys
    → set_sources (m ∷ ms) ≡ xs ++ ys
set_sources-append none ms xs ys e f = f ∙ ap (λ l. l ++ ys) e
set_sources-append (some x) ms xs ys e f = ap (λ l. x ∷ l) f ∙ ap (λ l. l ++ ys) e

set_volume :
    {W K : Type 0} (node : Node W) (sg : BceSigner W K)
    → set_sources (volume_source node sg ∷ []) ≡ of_volume node sg.token_volume
unfolding volume_source
set_volume node sg = elim (Bool-cases (sg.token_volume == "")) [
  | inl e ↦ ground (arith, e)
  | inr e ↦ ground (arith, e)
]

set_secret :
    {W K : Type 0} (sg : BceSigner W K)
    → set_sources (secret_source sg ∷ []) ≡ of_set from_secret sg.secret_getter
unfolding secret_source
set_secret sg = elim (Option-cases sg.secret_getter) [ inl e ↦ rw e refl | inr (g, e) ↦ rw e refl ]

set_getter :
    {W K : Type 0} (sg : BceSigner W K) (k : K)
    → set_sources (getter_source sg k ∷ []) ≡ of_set (λ g. from_getter g k) sg.token_getter
unfolding getter_source
set_getter sg k = elim (Option-cases sg.token_getter) [ inl e ↦ rw e refl | inr (g, e) ↦ rw e refl ]

-- The code's sources are the signer's.
sources_lem :
    {W K : Type 0} (node : Node W) (sg : BceSigner W K) (k : K)
    → set_sources (volume_source node sg ∷ secret_source sg ∷ getter_source sg k ∷ [])
      ≡ sources node sg k
sources_lem node sg k =
    set_sources-append (volume_source node sg) (secret_source sg ∷ getter_source sg k ∷ [])
      (of_volume node sg.token_volume)
      (of_set from_secret sg.secret_getter ++ of_set (λ g. from_getter g k) sg.token_getter)
      (set_volume node sg)
      (set_sources-append (secret_source sg) (getter_source sg k ∷ [])
        (of_set from_secret sg.secret_getter) (of_set (λ g. from_getter g k) sg.token_getter)
        (set_secret sg) (set_getter sg k))

-- Asks the sources in turn until one succeeds; the error is the last one's.
abbrev pub or_next :
    {W : Type 0}
    → Result FetchError (String × String) × W
    → (Option FetchError → Fetch W)
    → Result (Option FetchError) (String × String) × W
or_next (ok texts, w) next = (ok texts, w)
or_next (err e, w) next = next (some e) w

unfoldable pub first_success : {W : Type 0} → List (Source W) → Option FetchError → Fetch W
first_success [] last_err w = (err last_err, w)
first_success (m ∷ ms) last_err w = or_next (m w) (first_success ms)

module _ {W : Type 0} where
  -- The sources that come after a fetch.
  after : Fetch W → List (Source W) → Fetch W
  after before ms w = elim (before w).0 [
    | ok texts ↦ before w
    | err last_err ↦ first_success ms last_err (before w).1
  ]

  after-try_next :
      (before : Fetch W) (m : Option (Source W)) (ms : List (Option (Source W))) (w : W)
      → after (try_next before m) (set_sources ms) w ≡ after before (set_sources (m ∷ ms)) w
  unfolding after try_next first_success
  after-try_next before none ms w = refl
  after-try_next before (some m) ms w = elim (Result-cases (before w).0) [
    | inl (texts, e) ↦ ground (arith, e)
    | inr (last_err, e) ↦ elim (Result-cases (m (before w).1).0) [
      | inl (texts, f) ↦ ground (arith, e, f)
      | inr (x, f) ↦ ground (arith, e, f)
    ]
  ]

  after-[] : (before : Fetch W) (w : W) → after before [] w ≡ before w
  unfolding after first_success
  after-[] before w = elim (Result-cases (before w).0) [
    | inl (texts, e) ↦ ground (arith, e)
    | inr (x, e) ↦ ground (arith, e)
  ]

  pub first_success_ok :
      (ms : List (Source W)) (last_err : Option FetchError) (w : W) {texts : String × String}
      → (first_success ms last_err w).0 ≡ ok texts
      → (m : Source W) × Memᴰ m ms × (v : W) × ((m v).0 ≡ ok texts)
  unfolding first_success
  first_success_ok [] last_err w h = absurd (ground (arith, h))
  first_success_ok (m ∷ ms) last_err w h = elim (Result-cases (m w).0) [
    | inl (texts, e) ↦ (m, Memᴰ.head refl, w, ground (arith, e, h))
    | inr (x, e) ↦
        let (n, i, v, f) = first_success_ok ms (some x) (m w).1 (ground (arith, e, h)) in
        (n, Memᴰ.tail i, v, f)
  ]

  pub first_success_available :
      (m : Source W) (ms : List (Source W)) (last_err : Option FetchError) (w : W)
      → Memᴰ m ms
      → ((v : W) → (texts : String × String) × ((m v).0 ≡ ok texts))
      → (texts : String × String) × ((first_success ms last_err w).0 ≡ ok texts)
  unfolding first_success
  first_success_available m [] last_err w i available = absurd (elim i [ ])
  first_success_available m (n ∷ ms) last_err w (Memᴰ.head p) available =
      let (texts, e) = available w in
      let f : (n w).0 ≡ ok texts = subst (λ x. (x w).0 ≡ ok texts) p e in (texts, ground (arith, f))
  first_success_available m (n ∷ ms) last_err w (Memᴰ.tail i) available =
      elim (Result-cases (n w).0) [
        | inl (texts, e) ↦ (texts, ground (arith, e))
        | inr (x, e) ↦
            let (texts, f) = first_success_available m ms (some x) (n w).1 i available in
            (texts, ground (arith, e, f))
      ]

module _ {W K : Type 0} (node : Node W) where
  -- The fetch asks the sources that are set, in their order.
  pub fetch_lem :
      (sg : BceSigner W K) (k : K) (w : W)
      → fetch node sg k w ≡ first_success (sources node sg k) none w
  unfolding fetch after
  fetch_lem sg k w =
      sym (after-[] (fetch node sg k) w)
      ∙ after-try_next (try_next (try_next (fail none) (volume_source node sg)) (secret_source sg))
          (getter_source sg k) [] w
      ∙ after-try_next (try_next (fail none) (volume_source node sg)) (secret_source sg)
          (getter_source sg k ∷ []) w
      ∙ after-try_next (fail none) (volume_source node sg)
          (secret_source sg ∷ getter_source sg k ∷ []) w
      ∙ ap (λ ms. first_success ms none w) (sources_lem node sg k)
