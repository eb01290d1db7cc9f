-- ===== src/Base/Text.antt =====
-- The methods of `str` and `String` that the program calls, over the characters of a text.
use Prim.Native.Nat.{ℕ, zero, suc, ◌+◌, ◌-◌, ◌/◌, ◌%◌}
use Prim.Native.Char.{Char, code}
use Prim.Native.String.{String, [], ◌∷◌, char_at}
use mathlib.Core.Bool.{Bool, true, false, ◌&&◌, ◌||◌}
use mathlib.Core.Option
use mathlib.Core.Option.{Option, none, some}
use mathlib.Core.List.{List, [], ◌∷◌, ◌++◌}
use httpsig_rs.Base.Tests.{leb, ltb, if◌then◌else◌}
use httpsig_rs.Base.Equality.{◌==◌, nat_eq, string_eq}

-- `format!` of two pieces. It computes on the left piece.
infixr 65 ◌<>◌
unfoldable pub ◌<>◌ : String → String → String
[] <> t = t
(c ∷ s) <> t = c ∷ (s <> t)

-- `char::is_whitespace`: the code points with the property White_Space.
unfoldable pub is_whitespace : ℕ → Bool
is_whitespace c =
    (leb 0x9 c && leb c 0xd)
    || c == 0x20
    || c == 0x85
    || c == 0xa0
    || c == 0x1680
    || (leb 0x2000 c && leb c 0x200a)
    || c == 0x2028
    || c == 0x2029
    || c == 0x202f
    || c == 0x205f
    || c == 0x3000

unfoldable pub trim_start : String → String
unfolding is_whitespace
trim_start [] = []
trim_start (c ∷ s) = let rest = trim_start s in if is_whitespace (code c) then rest else c ∷ s

-- A character in front of a text whose end is already trimmed.
unfoldable pub trim_cons : Char → String → String
unfolding is_whitespace
trim_cons c [] = if is_whitespace (code c) then [] else c ∷ []
trim_cons c (d ∷ s) = c ∷ d ∷ s

unfoldable pub trim_end : String → String
unfolding trim_cons
trim_end [] = []
trim_end (c ∷ s) = trim_cons c (trim_end s)

unfoldable pub trim : String → String
unfolding trim_start trim_end
trim s = trim_end (trim_start s)

-- `split_once(c)`
unfoldable pub split_once : ℕ → String → Option (String × String)
split_once c [] = none
split_once c (d ∷ s) =
    if code d == c then some ([], s) else Option.map (λ p. (d ∷ p.0, p.1)) (split_once c s)

unfoldable pub starts_with_char : ℕ → String → Bool
starts_with_char c [] = false
starts_with_char c (d ∷ s) = code d == c

unfoldable pub ends_with_char : ℕ → String → Bool
ends_with_char c [] = false
ends_with_char c (d ∷ []) = code d == c
ends_with_char c (d ∷ e ∷ s) = ends_with_char c (e ∷ s)

unfoldable pub contains_char : ℕ → String → Bool
contains_char c [] = false
contains_char c (d ∷ s) = code d == c || contains_char c s

unfoldable pub has_prefix : String → String → Bool
has_prefix [] s = true
has_prefix (p ∷ ps) [] = false
has_prefix (p ∷ ps) (c ∷ s) = code p == code c && has_prefix ps s

-- `s.contains(pattern)` for a text that is not empty.
unfoldable pub contains_str : String → String → Bool
unfolding has_prefix
contains_str p [] = false
contains_str p (c ∷ s) = has_prefix p (c ∷ s) || contains_str p s

-- `&s[1..]` of a text that begins with a one-byte character.
abbrev pub drop_first : String → String
drop_first [] = []
drop_first (c ∷ s) = s

-- `split(c)`: there is always one piece.
unfoldable pub split_on : ℕ → String → String × List String
split_on c [] = ([], [])
split_on c (d ∷ s) =
    let (piece, pieces) = split_on c s in
    if code d == c then ([], piece ∷ pieces) else (d ∷ piece, pieces)

abbrev pub pieces : String × List String → List String
pieces (p, ps) = p ∷ ps

-- `join(separator)`
unfoldable pub join : String → List String → String
unfolding ◌<>◌
join sep [] = []
join sep (x ∷ []) = x
join sep (x ∷ y ∷ xs) = x <> sep <> join sep (y ∷ xs)

unfoldable pub upper_char : Char → Char
upper_char c =
    if leb b'a' (code c) && leb (code c) b'z'
    then char_at "ABCDEFGHIJKLMNOPQRSTUVWXYZ" (code c - b'a')
    else c

unfoldable pub lower_char : Char → Char
lower_char c =
    if leb b'A' (code c) && leb (code c) b'Z'
    then char_at "abcdefghijklmnopqrstuvwxyz" (code c - b'A')
    else c

unfoldable pub to_ascii_uppercase : String → String
unfolding upper_char
to_ascii_uppercase [] = []
to_ascii_uppercase (c ∷ s) = upper_char c ∷ to_ascii_uppercase s

unfoldable pub to_ascii_lowercase : String → String
unfolding lower_char
to_ascii_lowercase [] = []
to_ascii_lowercase (c ∷ s) = lower_char c ∷ to_ascii_lowercase s

-- `Display` of an unsigned integer. The fuel n + 1 is more than its digits.
digits_of : ℕ → ℕ → String → String
digits_of zero n rest = rest
digits_of (suc fuel) n rest =
    let here : String = char_at "0123456789" (n % 10) ∷ rest in
    let more = digits_of fuel (n / 10) here in if ltb n 10 then here else more

unfoldable pub print_nat : ℕ → String
unfolding digits_of
print_nat n = digits_of (suc n) n []

-- `as_bytes`: the UTF-8 encoding.
utf8_char : ℕ → List ℕ
utf8_char c =
    if ltb c 0x80
    then c ∷ []
    else if ltb c 0x800
    then (0xc0 + c / 0x40) ∷ (0x80 + c % 0x40) ∷ []
    else if ltb c 0x10000
    then (0xe0 + c / 0x1000) ∷ (0x80 + c / 0x40 % 0x40) ∷ (0x80 + c % 0x40) ∷ []
    else (0xf0 + c / 0x40000)
      ∷ (0x80 + c / 0x1000 % 0x40)
      ∷ (0x80 + c / 0x40 % 0x40)
      ∷ (0x80 + c % 0x40)
      ∷ []

unfoldable pub as_bytes : String → List ℕ
unfolding utf8_char
as_bytes [] = []
as_bytes (c ∷ s) = utf8_char (code c) ++ as_bytes s
