-- ===== src/Util/Number.antt =====
-- `strconv.Atoi(s)` and `strconv.ParseInt(s, 10, 64)` of Go's library: an optional sign and decimal
-- digits, within 64 bits.
use Prim.Native.Char.{code}
use baiducloud_cce_csi_drive.Util.Text.{char_or}
use baiducloud_cce_csi_drive.Base.{
  ℕ, zero, suc, ◌+◌, ◌-◌, ◌*◌, ◌/◌, ◌%◌, ◌^◌, String, ◌&&◌, Option, none, some, leb, ltb, eqb,
  if◌then◌else◌, ◌≡◌, refl,
}
use baiducloud_cce_csi_drive.Base.Int.{ℤ, pos, negsuc, sub_ℕ}

digits : String → ℕ → Option ℕ
digits String.[] n = some n
digits (String.◌∷◌ c s) n =
    let later = digits s (n * 10 + (code c - b'0')) in
    if leb b'0' (code c) && leb (code c) b'9' then later else none

unsigned : String → Option ℕ
unfolding digits
unsigned String.[] = none
unsigned s = digits s 0

abbrev within : (limit : ℕ) → (ℕ → ℤ) → Option ℕ → Option ℤ
within limit f none = none
within limit f (some n) = if ltb n limit then some (f n) else none

unfoldable pub parse_int : String → Option ℤ
unfolding unsigned
parse_int String.[] = none
parse_int (String.◌∷◌ c s) =
    if eqb (code c) b'-'
    then within (2 ^ 63 + 1) (λ n. sub_ℕ 0 n) (unsigned s)
    else if eqb (code c) b'+'
    then within (2 ^ 63) pos (unsigned s)
    else within (2 ^ 63) pos (unsigned (String.◌∷◌ c s))

-- The value that `strconv.ParseInt` gives beside its error: the nearest limit where the number is
-- out of range, which is seen at the first digit that leaves 64 bits, and 0 otherwise.
refused_digits : ℤ → String → ℕ → ℤ
refused_digits limit String.[] n = limit
refused_digits limit (String.◌∷◌ c s) n =
    let m = n * 10 + (code c - b'0') in
    let rest = refused_digits limit s m in
    if leb b'0' (code c) && leb (code c) b'9'
    then (if ltb m (2 ^ 64) then rest else limit)
    else pos 0

refused_unsigned : ℤ → String → ℤ
unfolding refused_digits
refused_unsigned limit String.[] = pos 0
refused_unsigned limit s = refused_digits limit s 0

unfoldable pub refused_int : String → ℤ
unfolding refused_unsigned
refused_int String.[] = pos 0
refused_int (String.◌∷◌ c s) =
    if eqb (code c) b'-'
    then refused_unsigned (negsuc (2 ^ 63 - 1)) s
    else if eqb (code c) b'+'
    then refused_unsigned (pos (2 ^ 63 - 1)) s
    else refused_unsigned (pos (2 ^ 63 - 1)) (String.◌∷◌ c s)

-- `fmt.Sprintf("%d", n)`, the digits of a number with the last one first; 20 digits hold 64 bits.
decimal_loop : ℕ → ℕ → String → String
decimal_loop zero n later = later
decimal_loop (suc fuel) n later =
    let text = String.◌∷◌ (char_or "0" "0123456789" (n % 10)) later in
    let rest = decimal_loop fuel (n / 10) text in if ltb n 10 then text else rest

unfoldable pub decimal : ℤ → String
unfolding decimal_loop
decimal (pos n) = decimal_loop 20 n ""
decimal (negsuc n) = String.◌∷◌ "-" (decimal_loop 20 (suc n) "")

d1 : decimal (pos 8080) ≡ "8080"
unfolding decimal
d1 = refl

d2 : refused_int "99999999999999999999x" ≡ pos (2 ^ 63 - 1)
unfolding refused_int
d2 = refl

d3 : refused_int "-12x" ≡ pos 0
unfolding refused_int
d3 = refl
