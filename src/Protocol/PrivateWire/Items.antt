-- ===== src/Protocol/PrivateWire/Items.antt =====
-- packages/protocol/src/private-wire.ts, lines 83 to 111: the readers of one field.
use Prim.Native.String.{String}
use xrp_payguard.Base.{Bool, not, any, List, ◌==◌, if◌then◌else◌}
use xrp_payguard.Base.Int.{ℤ, pos, ltb_ℤ}
use xrp_payguard.Text.{Text, text_eq, is_hex}
use xrp_payguard.Text.Decimal.{is_decimal, decimal_value}
use xrp_payguard.Failure.{Result, ok, err, labelled, ◌>>=◌, ◌>>◌, throw_if}
use xrp_payguard.Viem.{Viem}
use xrp_payguard.Protocol.Codec.Primitives.{map_result}
use xrp_payguard.Protocol.PrivateWire.{
  Entry, text, Wire, string, integer, boolean, array, Field, fields,
}

unfoldable pub is_unknown_key : Field → Bool
is_unknown_key f = not (any (λ key. text_eq key f.key) fields)

unfoldable pub quoted : Wire → String → Result ℤ
quoted (string item) key =
    if not (is_decimal item)
    then err (labelled key "must be a canonical decimal string")
    else ok (pos (decimal_value item))
quoted _ key = err (labelled key "must be a canonical decimal string")

unfoldable pub unsigned : Wire → String → Result ℤ
unsigned (integer item) key =
    if ltb_ℤ item (pos 0) then err (labelled key "must be an unsigned integer") else ok item
unsigned _ key = err (labelled key "must be an unsigned integer")

unfoldable pub hex_entry : String → Entry → Result Text
hex_entry key (text entry) =
    if not (is_hex entry) then err (labelled key "contains non-hex data") else ok entry
hex_entry key Entry.other = err (labelled key "contains non-hex data")

unfoldable pub hex_list : Wire → String → Result (List Text)
hex_list (array item) key = map_result (hex_entry key) item
hex_list _ key = err (labelled key "must be an explicit array")

unfoldable pub flag_item : Wire → String → Result Bool
flag_item (boolean item) key = ok item
flag_item _ key = err (labelled key "must be boolean")

module _ (V : Viem) where
  -- The test of the bytes' number is viem's.
  unfoldable pub hex_item : Wire → String → Result Text
  hex_item (string item) key = do
    throw_if (not (is_hex item)) (labelled key "must be hex")
    size ← V.hex_to_bytes_length item
    throw_if (size == 0) (labelled key "must be hex")
    ok item
  hex_item _ key = err (labelled key "must be hex")
