-- ===== src/Text/Defs.antt =====
-- The methods of `str` and `char` that the program calls.
use Prim.Native.Char.{code}
use mathlib.Core.Option
use homelab_mcp.Prelude.{
  ℕ, zero, suc, ◌+◌, ◌/◌, ◌%◌, String, Bool, true, false, ◌&&◌, ◌||◌, Option, none, some, List, [],
  ◌∷◌, map, reverse, ltb, leb, ◌==◌, if◌then◌else◌, is_some,
}

abbrev pub Str : Type 0
Str = List ℕ

-- a literal of the source
abbrev pub lit : String → Str
lit String.[] = []
lit (String.◌∷◌ c s) = code c ∷ lit s

-- the bytes that UTF-8 takes for a code point
abbrev pub char_width : ℕ → ℕ
char_width c = if ltb c 0x80 then 1 else if ltb c 0x800 then 2 else if ltb c 0x10000 then 3 else 4

unfoldable pub len : Str → ℕ
len [] = 0
len (c ∷ s) = char_width c + len s

unfoldable pub is_empty : Str → Bool
is_empty [] = true
is_empty (c ∷ s) = false

unfoldable pub str_eq : Str → Str → Bool
str_eq [] [] = true
str_eq (a ∷ s) (b ∷ t) = (a == b) && str_eq s t
str_eq _ _ = false

abbrev pub is_ascii_lowercase : ℕ → Bool
is_ascii_lowercase c = leb b'a' c && leb c b'z'

abbrev pub is_ascii_uppercase : ℕ → Bool
is_ascii_uppercase c = leb b'A' c && leb c b'Z'

abbrev pub is_ascii_digit : ℕ → Bool
is_ascii_digit c = leb b'0' c && leb c b'9'

unfoldable pub is_ascii_alphanumeric : ℕ → Bool
is_ascii_alphanumeric c = is_ascii_lowercase c || is_ascii_uppercase c || is_ascii_digit c

-- the Unicode property White_Space
unfoldable pub is_whitespace : ℕ → Bool
is_whitespace c =
    (leb 0x9 c && leb c 0xd)
    || c == 0x20
    || c == 0x85
    || c == 0xa0
    || c == 0x1680
    || (leb 0x2000 c && leb c 0x200a)
    || c == 0x2028
    || c == 0x2029
    || c == 0x202f
    || c == 0x205f
    || c == 0x3000

-- the general category Cc
unfoldable pub is_control : ℕ → Bool
is_control c = leb c 0x1f || (leb 0x7f c && leb c 0x9f)

unfoldable pub contains_char : Str → ℕ → Bool
contains_char [] c = false
contains_char (d ∷ s) c = d == c || contains_char s c

unfoldable pub starts_with_char : Str → ℕ → Bool
starts_with_char [] c = false
starts_with_char (d ∷ s) c = d == c

unfoldable pub ends_with_char : Str → ℕ → Bool
unfolding starts_with_char
ends_with_char s c = starts_with_char (reverse s) c

unfoldable pub trim_start : Str → Str
trim_start [] = []
trim_start (c ∷ s) = let rest = trim_start s in if is_whitespace c then rest else c ∷ s

unfoldable pub trim : Str → Str
unfolding trim_start is_whitespace
trim s = reverse (trim_start (reverse (trim_start s)))

-- the head part gets one more character
abbrev pub push_head : ℕ → List Str → List Str
push_head c [] = (c ∷ []) ∷ []
push_head c (p ∷ ps) = (c ∷ p) ∷ ps

-- `s.split(sep)`: at least one part, and the separators are dropped
unfoldable pub split : ℕ → Str → List Str
split sep [] = [] ∷ []
split sep (c ∷ s) = let rest = split sep s in if c == sep then [] ∷ rest else push_head c rest

unfoldable pub strip_prefix : Str → Str → Option Str
strip_prefix [] s = some s
strip_prefix (p ∷ ps) [] = none
strip_prefix (p ∷ ps) (c ∷ s) = if p == c then strip_prefix ps s else none

-- the offset of the first match
unfoldable pub find : Str → Str → Option ℕ
unfolding strip_prefix
find pat [] = if is_some (strip_prefix pat []) then some 0 else none
find pat (c ∷ s) =
    if is_some (strip_prefix pat (c ∷ s)) then some 0 else Option.map (λ i. suc i) (find pat s)

unfoldable pub contains : Str → Str → Bool
unfolding find
contains pat s = is_some (find pat s)

unfoldable pub trim_end : Str → Str
unfolding trim_start is_whitespace
trim_end s = reverse (trim_start (reverse s))

-- the decimal digits of a `u16`: five rounds are enough
unfoldable pub decimal_from : ℕ → ℕ → Str → Str
decimal_from zero n rest = rest
decimal_from (suc k) n rest =
    let digits = (b'0' + n % 10) ∷ rest in
    let more = decimal_from k (n / 10) digits in if ltb n 10 then digits else more

unfoldable pub decimal : ℕ → Str
unfolding decimal_from
decimal n = decimal_from 5 n []

abbrev lowercase : ℕ → ℕ
lowercase c = if is_ascii_uppercase c then c + 32 else c

unfoldable pub to_ascii_lowercase : Str → Str
to_ascii_lowercase = map lowercase

-- `a <= b` on texts: UTF-8 keeps the order of the code points
unfoldable pub str_le : Str → Str → Bool
str_le [] t = true
str_le (c ∷ s) [] = false
str_le (c ∷ s) (d ∷ t) = ltb c d || (c == d && str_le s t)

-- `s.lines().count()`: a newline at the end starts no line
unfoldable pub lines : Str → ℕ
lines [] = 0
lines (c ∷ []) = 1
lines (c ∷ d ∷ s) = let rest = lines (d ∷ s) in if c == 10 then suc rest else rest
