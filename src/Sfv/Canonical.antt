-- ===== src/Sfv/Canonical.antt =====
-- Structured fields as RFC 8941 writes them (sections 4.1.1 to 4.1.6), the standard that the texts of
-- component ids and signature parameters have to follow.
use Prim.Native.String.{[], ◌∷◌}
use Prim.Native.Char.{Char, code}
use httpsig_rs.Base.{
  leb, ltb, ◌^◌, ◌&&◌, true, all, Option, some, none, ◌≡◌, refl, ap, ◌↔◌, inl, inr, Bool-cases,
  String, ℕ, suc, ◌≤◌, Bool, false, ◌||◌, List, map, ◌==◌, nat_eq, string_eq, ◌<>◌, print_nat, join,
  pos, negsuc, or-eq-false, if◌then◌else◌, arith,
}
use httpsig_rs.Sfv.{BareItem, Item, InnerList, Parameters}

-- In a string, `"` and `\` stand behind a backslash.
is_special : Char → Bool
is_special c = code c == b'"' || code c == b'\\'

unfoldable pub escaped : String → String
unfolding is_special ◌<>◌
escaped [] = []
escaped (c ∷ s) = let rest = escaped s in if is_special c then "\\" <> (c ∷ rest) else c ∷ rest

unfoldable pub has_special : String → Bool
unfolding is_special
has_special [] = false
has_special (c ∷ s) = is_special c || has_special s

-- A string without the two characters.
abbrev pub IsUnescaped : String → Type 0
IsUnescaped s = has_special s ≡ false

-- The characters of a string: ASCII, and no control characters (step 2 of section 4.1.6).
unfoldable pub all_visible : String → Bool
all_visible [] = true
all_visible (c ∷ s) = (leb 32 (code c) && leb (code c) 126) && all_visible s

-- A string that is written as it is, between double quotes.
abbrev pub IsPlain : String → Type 0
IsPlain s = IsUnescaped s × (all_visible s ≡ true)

-- The characters of a key (section 4.1.1.3).
is_lower : Char → Bool
is_lower c = leb b'a' (code c) && leb (code c) b'z'

is_key_char : Char → Bool
unfolding is_lower
is_key_char c =
    is_lower c
    || (leb b'0' (code c) && leb (code c) b'9')
    || code c == b'_'
    || code c == b'-'
    || code c == b'.'
    || code c == b'*'

all_key_chars : String → Bool
unfolding is_key_char
all_key_chars [] = true
all_key_chars (c ∷ s) = is_key_char c && all_key_chars s

unfoldable pub is_key : String → Bool
unfolding is_lower all_key_chars
is_key [] = false
is_key (c ∷ s) = (is_lower c || code c == b'*') && all_key_chars s

-- Whether serialization goes through: a string of other characters, an integer of more than fifteen
-- digits (section 4.1.4) and another key make it fail. What is known by its text alone is written.
unfoldable pub is_serializable_item : BareItem → Bool
unfolding all_visible
is_serializable_item (BareItem.string s) = all_visible s
is_serializable_item (BareItem.integer (pos n)) = ltb n (10 ^ 15)
is_serializable_item (BareItem.integer (negsuc n)) = ltb (suc n) (10 ^ 15)
is_serializable_item (BareItem.byte_sequence bytes) = true
is_serializable_item (BareItem.other text) = true

unfoldable pub is_serializable_parameter : String × BareItem → Bool
unfolding is_key is_serializable_item
is_serializable_parameter (key, value) = is_key key && is_serializable_item value

unfoldable pub is_serializable : InnerList → Bool
unfolding is_serializable_parameter
is_serializable l =
    all (λ i. is_serializable_item i.bare_item && all is_serializable_parameter i.params) l.items
    && all is_serializable_parameter l.params

-- The text, where serialization does not fail.
module _ (encode : List ℕ → String) where
  unfoldable pub bare_item : BareItem → String
  unfolding ◌<>◌ escaped print_nat
  bare_item (BareItem.string s) = "\"" <> escaped s <> "\""
  bare_item (BareItem.integer (pos n)) = print_nat n
  bare_item (BareItem.integer (negsuc n)) = "-" <> print_nat (suc n)
  bare_item (BareItem.byte_sequence bytes) = ":" <> encode bytes <> ":"
  bare_item (BareItem.other text) = text

  -- A parameter whose value is the Boolean true is written as its key alone.
  unfoldable pub parameter : String × BareItem → String
  unfolding bare_item
  parameter (key, BareItem.other text) =
      if text == "?1" then ";" <> key else ";" <> key <> "=" <> text
  parameter (key, value) = ";" <> key <> "=" <> bare_item value

  unfoldable pub parameters : Parameters → String
  unfolding parameter ◌<>◌
  parameters List.[] = ""
  parameters (List.◌∷◌ p ps) = parameter p <> parameters ps

  unfoldable pub item : Item → String
  unfolding bare_item parameters
  item i = bare_item i.bare_item <> parameters i.params

  unfoldable pub inner_list : InnerList → String
  unfolding item parameters join
  inner_list l = "(" <> join " " (map item l.items) <> ")" <> parameters l.params

  -- The serialization, or none where it fails.
  unfoldable pub serialize_parameter : String × BareItem → Option String
  unfolding is_serializable_parameter parameter
  serialize_parameter p = if is_serializable_parameter p then some (parameter p) else none

  unfoldable pub serialize_inner_list : InnerList → Option String
  unfolding is_serializable inner_list
  serialize_inner_list l = if is_serializable l then some (inner_list l) else none

pub escaped-plain : (s : String) → IsUnescaped s → escaped s ≡ s
unfolding escaped has_special
escaped-plain [] h = refl
escaped-plain (c ∷ s) h =
    let (ordinary, later) = or-eq-false (is_special c) (has_special s) h in
    rw ordinary (ap (λ t. c ∷ t) (escaped-plain s later))

-- The number of characters.
size : String → ℕ
size [] = 0
size (c ∷ s) = suc (size s)

size-escaped : (s : String) → size s ≤ size (escaped s)
unfolding escaped size
size-escaped [] = omega arith
size-escaped (c ∷ s) = elim (Bool-cases (is_special c)) [
  | inl special ↦ rw special (omega (arith, size-escaped s))
  | inr ordinary ↦ rw ordinary (omega (arith, size-escaped s))
]

longer : (c : Char) (s : String) → size s ≤ size (escaped s) → "\\" <> (c ∷ escaped s) ≡ c ∷ s → ⊥
unfolding size ◌<>◌
longer c s h e = omega (arith, ap size e)

IsUnescaped-of_escaped : (s : String) → escaped s ≡ s → IsUnescaped s
unfolding escaped has_special
IsUnescaped-of_escaped [] e = refl
IsUnescaped-of_escaped (c ∷ s) e = elim (Bool-cases (is_special c)) [
  | inl special ↦ absurd (longer c s (size-escaped s) (rw special at e))
  | inr ordinary ↦
      rw ordinary (IsUnescaped-of_escaped s (tail_inj c (escaped s) s (rw ordinary at e)))
]
  where
    tail_inj : (d : Char) (a b : String) → (d ∷ a) ≡ (d ∷ b) → a ≡ b
    tail_inj d a b k = cc

-- A string is written as it is exactly if it has neither.
pub escaped_iff : (s : String) → (escaped s ≡ s) ↔ IsUnescaped s
escaped_iff s = (IsUnescaped-of_escaped s, escaped-plain s)
