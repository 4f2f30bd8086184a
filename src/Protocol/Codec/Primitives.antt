-- ===== src/Protocol/Codec/Primitives.antt =====
-- packages/protocol/src/codec.ts, lines 90 to 132: the validators of single values and lists.
use Prim.Native.String.{String}
use xrp_payguard.Base.{ℕ, ◌^◌, Bool, false, ◌||◌, not, List, [], ◌∷◌, if◌then◌else◌}
use xrp_payguard.Base.Int.{ℤ, pos, ltb_ℤ, leb_ℤ}
use xrp_payguard.Text.{Text, to_lower_case, text_eq, is_hex32, sort}
use xrp_payguard.Failure.{Result, ok, err, labelled, oversized, ◌>>=◌}
use xrp_payguard.Viem.{Viem}

unfoldable pub bytes32 : Text → String → Result Text
bytes32 value label =
    if not (is_hex32 value)
    then err (labelled label "must be bytes32")
    else ok (to_lower_case value)

unfoldable pub uint : ℤ → String → Result ℤ
uint value label = if ltb_ℤ value (pos 0) then err (labelled label "must be unsigned") else ok value

unfoldable pub bounded_uint : ℤ → ℕ → String → Result ℤ
unfolding uint
bounded_uint value bits label = do
  result ← uint value label
  if leb_ℤ (pos (2 ^ bits)) result then err (oversized label bits) else ok result

-- `values.map(f)` where `f` may throw.
unfoldable pub map_result : {A B : Type 0} → (A → Result B) → List A → Result (List B)
map_result f [] = ok []
map_result f (x ∷ xs) = do y ← f x; ys ← map_result f xs; ok (y ∷ ys)

-- The loop that compares each member with the one before it.
unfoldable pub has_duplicate_neighbours : List Text → Bool
has_duplicate_neighbours [] = false
has_duplicate_neighbours (a ∷ []) = false
has_duplicate_neighbours (a ∷ b ∷ rest) = text_eq b a || has_duplicate_neighbours (b ∷ rest)

unfoldable pub distinct : List Text → String → Result (List Text)
distinct normalized label =
    if has_duplicate_neighbours normalized
    then err (labelled label "contains duplicates")
    else ok normalized

module _ (V : Viem) where
  unfoldable pub address : Text → String → Result Text
  address value label =
      if not (V.is_address value)
      then err (labelled label "must be an address")
      else V.get_address value

  unfoldable pub lower_address : String → Text → Result Text
  lower_address label value = do checksummed ← address value label; ok (to_lower_case checksummed)

  unfoldable pub sorted_addresses : List Text → String → Result (List Text)
  sorted_addresses values label = do
    normalized ← map_result (lower_address label) values
    distinct (sort normalized) label

unfoldable pub sorted_bytes32 : List Text → String → Result (List Text)
sorted_bytes32 values label = do
  normalized ← map_result (λ value. bytes32 value label) values
  distinct (sort normalized) label
