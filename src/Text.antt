-- ===== src/Text.antt =====
-- JavaScript strings as lists of code units, over ASCII: the texts that the protocol handles are
-- hexadecimal identifiers, addresses and digests (`Hex` of viem), and any other is refused by the
-- regular expressions below. `toLowerCase` maps A to Z and leaves every other code unit alone.
pub mod Laws
pub mod Order
pub mod Sort
pub mod Members
pub mod Decimal
use Prim.Native.Char.{code}
use Prim.Native.String.{String}
use xrp_payguard.Base.{
  ℕ, zero, suc, ◌+◌, Bool, true, false, ◌&&◌, ◌||◌, List, [], ◌∷◌, map, leb, ltb, ◌==◌,
  if◌then◌else◌, replicate,
}

abbrev pub Text : Type 0
Text = List ℕ

-- The code units of a literal.
abbrev pub codes : String → Text
codes String.[] = []
codes (String.◌∷◌ c s) = code c ∷ codes s

unfoldable pub lower : ℕ → ℕ
lower c = if leb b'A' c && leb c b'Z' then c + 32 else c

unfoldable pub to_lower_case : Text → Text
unfolding lower
to_lower_case [] = []
to_lower_case (c ∷ t) = lower c ∷ to_lower_case t

-- `a === b`
unfoldable pub text_eq : Text → Text → Bool
text_eq [] [] = true
text_eq [] (_ ∷ _) = false
text_eq (_ ∷ _) [] = false
text_eq (a ∷ s) (b ∷ t) = a == b && text_eq s t

-- `a.toLowerCase() === b.toLowerCase()`
unfoldable pub same_hex : Text → Text → Bool
unfolding text_eq to_lower_case
same_hex a b = text_eq (to_lower_case a) (to_lower_case b)

unfoldable pub is_hex_digit : ℕ → Bool
is_hex_digit c = leb b'0' c && leb c b'9' || leb b'a' c && leb c b'f' || leb b'A' c && leb c b'F'

-- Exactly n hexadecimal digits.
unfoldable pub is_hex_run : ℕ → Text → Bool
unfolding is_hex_digit
is_hex_run zero [] = true
is_hex_run zero (_ ∷ _) = false
is_hex_run (suc n) [] = false
is_hex_run (suc n) (c ∷ t) = is_hex_digit c && is_hex_run n t

-- One hexadecimal digit or more, and nothing else.
unfoldable pub is_hex_digits : Text → Bool
unfolding is_hex_digit
is_hex_digits [] = false
is_hex_digits (c ∷ []) = is_hex_digit c
is_hex_digits (c ∷ d ∷ t) = is_hex_digit c && is_hex_digits (d ∷ t)

-- `/^0x[0-9a-fA-F]{64}$/`
unfoldable pub is_hex32 : Text → Bool
unfolding is_hex_run
is_hex32 (z ∷ x ∷ t) = z == b'0' && (x == b'x' && is_hex_run 64 t)
is_hex32 _ = false

-- `/^0x[0-9a-fA-F]+$/`
unfoldable pub is_hex : Text → Bool
unfolding is_hex_digits
is_hex (z ∷ x ∷ t) = z == b'0' && (x == b'x' && is_hex_digits t)
is_hex _ = false

abbrev pub zero_bytes32 : Text
zero_bytes32 = b'0' ∷ b'x' ∷ replicate 64 b'0'

abbrev pub zero_address : Text
zero_address = b'0' ∷ b'x' ∷ replicate 40 b'0'

-- `a < b` of two strings: lexicographic in the code units.
unfoldable pub text_leb : Text → Text → Bool
text_leb [] _ = true
text_leb (_ ∷ _) [] = false
text_leb (a ∷ s) (b ∷ t) = ltb a b || a == b && text_leb s t

-- `Array.prototype.sort` with no comparator: stable, by the code units. Any stable sort gives the
-- same array.
unfoldable pub insert_sorted : Text → List Text → List Text
unfolding text_leb
insert_sorted a [] = a ∷ []
insert_sorted a (b ∷ bs) = if text_leb a b then a ∷ b ∷ bs else b ∷ insert_sorted a bs

unfoldable pub sort : List Text → List Text
unfolding insert_sorted
sort [] = []
sort (a ∷ ts) = insert_sorted a (sort ts)
