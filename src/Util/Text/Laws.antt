-- ===== src/Util/Text/Laws.antt =====
-- Parts of a text put together again.
use Prim.Native.String.{◌++◌ as ◌<>◌}
use text.Mathlib.TextEquality.{Char-path}
use text.Mathlib.TextLemmas.{nil-append, cons-append}
use baiducloud_cce_csi_drive.Base.{String, some, ◌≡◌, refl, ◌∙◌, ap, arith, Option-cases, inl, inr}
use baiducloud_cce_csi_drive.Util.Text.{strip_prefix, split_first}

pub append-strip_prefix :
    (p s : String) {rest : String} → strip_prefix p s ≡ some rest → p <> rest ≡ s
unfolding strip_prefix
append-strip_prefix String.[] s {rest} h = nil-append rest ∙ ground arith
append-strip_prefix (String.◌∷◌ c p) String.[] h = ground arith
append-strip_prefix (String.◌∷◌ c p) (String.◌∷◌ d s) {rest} h =
    rw cons-append (ground (arith, Char-path c d, append-strip_prefix p s {rest = rest}))

-- The two parts of a text that is cut at a separator, with the separator between them, are the text.
pub append-split_first :
    (sep s : String) {a b : String} → split_first sep s ≡ some (a, b) → a <> (sep <> b) ≡ s
unfolding split_first
append-split_first sep String.[] h = ground arith
append-split_first sep (String.◌∷◌ c s) {a} {b} h =
    elim (Option-cases (strip_prefix sep (String.◌∷◌ c s))) [
      | inl e ↦ elim (Option-cases (split_first sep s)) [
        | inl f ↦ ground (arith, e, f)
        | inr ((a', b'), f) ↦
            let pa : a ≡ String.◌∷◌ c a' = ground (arith, e, f) in
            let pb : b ≡ b' = ground (arith, e, f) in
            rw (pa, pb, cons-append) (ap (String.◌∷◌ c) (append-split_first sep s f))
      ]
      | inr (r, e) ↦
          let pa : a ≡ "" = ground (arith, e) in
          let pb : b ≡ r = ground (arith, e) in
          rw (pa, pb, nil-append) (append-strip_prefix sep (String.◌∷◌ c s) e)
    ]

pub strip_prefix-append : (p s : String) → strip_prefix p (p <> s) ≡ some s
unfolding strip_prefix
strip_prefix-append String.[] s = rw nil-append refl
strip_prefix-append (String.◌∷◌ c p) s = rw cons-append (ground (arith, strip_prefix-append p s))
