-- ===== src/Util/Digest.antt =====
-- `MD5` and `ToJSONOrPanic` of pkg/util/util.go. The sum of Go's crypto/md5 and json.Marshal are
-- parameters; `hex.EncodeToString` is by its documentation.
use Prim.Native.Char.{Char, code}
use baiducloud_cce_csi_drive.Base.{
  ℕ, zero, suc, ◌+◌, ◌-◌, ◌*◌, ◌/◌, ◌%◌, ◌<◌, String, Option, none, some, List, [], ◌∷◌, ◌≡◌, refl,
  sym, ap, ◌∙◌, leb, if◌then◌else◌, Result, ok, err, arith,
}
use baiducloud_cce_csi_drive.Util.Text.{char_or}

-- A digit in base 16, in lower case.
abbrev hex_digit : ℕ → Char
hex_digit n = char_or "0" "0123456789abcdef" n

unfoldable pub hex : List ℕ → String
hex [] = ""
hex (b ∷ bs) = String.◌∷◌ (hex_digit (b / 16)) (String.◌∷◌ (hex_digit (b % 16)) (hex bs))

-- The sum as a text. A list stands for the 16 bytes of a sum.
unfoldable pub md5 : (sum : String → List ℕ) → String → String
unfolding hex
md5 sum s = hex (sum s)

-- `none` for a panic.
unfoldable pub to_json_or_panic :
    {V E : Type 0} → (marshal : V → Result E String) → V → Option String
to_json_or_panic marshal v = elim (marshal v) [ ok text ↦ some text | err e ↦ none ]

abbrev pub AllBytes : List ℕ → Type 0
AllBytes [] = Unit
AllBytes (b ∷ bs) = (b < 256) × AllBytes bs

abbrev digit_value : Char → ℕ
digit_value c = if leb (code c) b'9' then code c - b'0' else code c - b'a' + 10

abbrev unhex : String → List ℕ
unhex String.[] = []
unhex (String.◌∷◌ c String.[]) = []
unhex (String.◌∷◌ c (String.◌∷◌ d s)) = (digit_value c * 16 + digit_value d) ∷ unhex s

-- The values of the characters, from a first value on.
abbrev AreFrom : ℕ → String → Type 0
AreFrom k String.[] = Unit
AreFrom k (String.◌∷◌ c s) = (digit_value c ≡ k) × AreFrom (suc k) s

abbrev size : String → ℕ
size String.[] = 0
size (String.◌∷◌ c s) = suc (size s)

digit_value-char_or :
    (c : Char) (s : String) (k n : ℕ)
    → AreFrom k s
    → n < size s
    → digit_value (char_or c s n) ≡ k + n
digit_value-char_or c String.[] k n a h = absurd (omega arith)
digit_value-char_or c (String.◌∷◌ d s) k zero (e, a) h = e ∙ omega arith
digit_value-char_or c (String.◌∷◌ d s) k (suc n) (e, a) h =
    digit_value-char_or c s (suc k) n a (omega arith) ∙ omega arith

digits-AreFrom : AreFrom 0 "0123456789abcdef"
digits-AreFrom = (
  refl,
  (
    refl,
    (
      refl,
      (
        refl,
        (
          refl,
          (
            refl,
            (refl, (refl, (refl, (refl, (refl, (refl, (refl, (refl, (refl, (refl, tt)))))))))),
          ),
        ),
      ),
    ),
  ),
)

digit_value-hex_digit : (n : ℕ) → n < 16 → digit_value (hex_digit n) ≡ n
digit_value-hex_digit n h =
    digit_value-char_or "0" "0123456789abcdef" 0 n digits-AreFrom h ∙ omega arith

unhex-hex : (bs : List ℕ) → AllBytes bs → unhex (hex bs) ≡ bs
unfolding hex
unhex-hex [] h = refl
unhex-hex (b ∷ bs) (l, h) =
    let high = digit_value-hex_digit (b / 16) (omega arith) in
    let low = digit_value-hex_digit (b % 16) (omega arith) in
    let digits : digit_value (hex_digit (b / 16)) * 16 + digit_value (hex_digit (b % 16)) ≡ b =
      omega arith in
    rw (digits, unhex-hex bs h) refl

-- Two keys have the same text only where their sums are the same.
pub md5_inj :
    (sum : String → List ℕ) (a b : String)
    → AllBytes (sum a)
    → AllBytes (sum b)
    → md5 sum a ≡ md5 sum b
    → sum a ≡ sum b
unfolding md5
md5_inj sum a b h k e = sym (unhex-hex (sum a) h) ∙ ap unhex e ∙ unhex-hex (sum b) k
