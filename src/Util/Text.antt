-- ===== src/Util/Text.antt =====
-- The functions of Go's `strings` that the driver calls, on the characters of a text.
-- `ToUpper` and `ToLower` are modelled on ASCII letters and leave all other characters alone.
pub mod Laws
use Prim.Native.Char.{Char, code}
use Prim.Native.String
use baiducloud_cce_csi_drive.Base.{
  ℕ, zero, suc, ◌-◌, String, Bool, true, false, ◌&&◌, ◌||◌, Option, none, some, List, [], ◌∷◌, leb,
  eqb, if◌then◌else◌,
}

abbrev pub char_or : Char → String → ℕ → Char
char_or c String.[] n = c
char_or c (String.◌∷◌ d s) zero = d
char_or c (String.◌∷◌ d s) (suc n) = char_or c s n

upper_char : Char → Char
upper_char c =
    if leb b'a' (code c) && leb (code c) b'z'
    then char_or c "ABCDEFGHIJKLMNOPQRSTUVWXYZ" (code c - b'a')
    else c

lower_char : Char → Char
lower_char c =
    if leb b'A' (code c) && leb (code c) b'Z'
    then char_or c "abcdefghijklmnopqrstuvwxyz" (code c - b'A')
    else c

unfoldable pub to_upper : String → String
unfolding upper_char
to_upper String.[] = String.[]
to_upper (String.◌∷◌ c s) = String.◌∷◌ (upper_char c) (to_upper s)

unfoldable pub to_lower : String → String
unfolding lower_char
to_lower String.[] = String.[]
to_lower (String.◌∷◌ c s) = String.◌∷◌ (lower_char c) (to_lower s)

abbrev prepend : Char → List String → List String
prepend c [] = String.◌∷◌ c String.[] ∷ []
prepend c (p ∷ ps) = String.◌∷◌ c p ∷ ps

-- strings.Split(s, sep), for a separator of one character.
unfoldable pub split : ℕ → String → List String
split sep String.[] = String.[] ∷ []
split sep (String.◌∷◌ c s) =
    let rest = split sep s in if eqb (code c) sep then String.[] ∷ rest else prepend c rest

after_last_loop : ℕ → String → String → String
after_last_loop sep best String.[] = best
after_last_loop sep best (String.◌∷◌ c s) =
    after_last_loop sep (if eqb (code c) sep then s else best) s

-- s[strings.LastIndex(s, sep)+1:]
unfoldable pub after_last : ℕ → String → String
unfolding after_last_loop
after_last sep s = after_last_loop sep s s

unfoldable pub strip_prefix : String → String → Option String
strip_prefix String.[] s = some s
strip_prefix (String.◌∷◌ c p) String.[] = none
strip_prefix (String.◌∷◌ c p) (String.◌∷◌ d s) =
    let rest = strip_prefix p s in if eqb (code c) (code d) then rest else none

abbrev pub prepend_to_first : Char → Option (String × String) → Option (String × String)
prepend_to_first c none = none
prepend_to_first c (some (a, b)) = some (String.◌∷◌ c a, b)

abbrev cut_here : Option String → Option (String × String) → Option (String × String)
cut_here (some rest) later = some (String.[], rest)
cut_here none later = later

-- strings.SplitN(s, sep, 2) where it gives two parts, for a separator that is not empty.
unfoldable pub split_first : String → String → Option (String × String)
split_first sep String.[] = none
split_first sep (String.◌∷◌ c s) =
    cut_here (strip_prefix sep (String.◌∷◌ c s)) (prepend_to_first c (split_first sep s))

-- White space in ASCII: the tabulator to the carriage return, and the space.
abbrev is_space : Char → Bool
is_space c = (leb 9 (code c) && leb (code c) 13) || eqb (code c) 32

trim_left : String → String
trim_left String.[] = String.[]
trim_left (String.◌∷◌ c s) = let rest = trim_left s in if is_space c then rest else String.◌∷◌ c s

drop_if_empty : Char → String → String
drop_if_empty c String.[] = if is_space c then String.[] else String.◌∷◌ c String.[]
drop_if_empty c (String.◌∷◌ d s) = String.◌∷◌ c (String.◌∷◌ d s)

trim_right : String → String
unfolding drop_if_empty
trim_right String.[] = String.[]
trim_right (String.◌∷◌ c s) = drop_if_empty c (trim_right s)

-- strings.TrimSpace, for white space in ASCII.
unfoldable pub trim_space : String → String
unfolding trim_left trim_right
trim_space s = trim_right (trim_left s)
