-- ===== src/Viem.antt =====
-- The functions of the package viem that the program calls: a parameter of the model. `keccak256`,
-- `stringToHex` and `padHex` are total on the texts that they are given; the others throw on an
-- argument that they refuse. `ViemLaws` states what viem documents of addresses and digests.
use xrp_payguard.Base.{ℕ, suc, ◌≡◌, Bool, true, List}
use xrp_payguard.Base.Int.{ℤ}
use xrp_payguard.Text.{Text, to_lower_case, is_hex32, is_hex}
use xrp_payguard.Failure.{Result, ok}

-- The `type` of an `AbiParameter`.
pub data AbiType : Type 0 where
  uint int : ℕ → AbiType
  address bytes32 bool : AbiType
  array : AbiType → AbiType
  fixed_array : AbiType → ℕ → AbiType

pub data AbiValue : Type 0 where
  number : ℤ → AbiValue
  hex : Text → AbiValue
  flag : Bool → AbiValue
  hexes : List Text → AbiValue

pub record Viem : Type 0 where
  pub keccak256 : Text → Text
  pub encode_abi_parameters : List AbiType → List AbiValue → Result Text
  pub is_address : Text → Bool
  pub get_address : Text → Result Text
  pub string_to_hex : Text → Text
  -- `padHex(value, { size: 32, dir: "right" })`
  pub pad_right32 : Text → Text
  -- `hexToBytes(value).length`
  pub hex_to_bytes_length : Text → Result ℕ
  -- `recoverMessageAddress({ message: { raw }, signature })`
  pub recover_message_address : Text → Text → Result Text

pub record ViemLaws (V : Viem) : Type 0 where
  -- A digest is 32 bytes in lower case.
  pub keccak256-is_hex32 : (t : Text) → is_hex32 (V.keccak256 t) ≡ true
  pub keccak256-lower : (t : Text) → to_lower_case (V.keccak256 t) ≡ V.keccak256 t
  -- An address has one checksummed spelling, which is an address and is its own; the spelling in
  -- lower case is an address too, and has the same one.
  pub checksum : (a : Text) → V.is_address a ≡ true → Text
  pub get_address_lem : (a : Text) (h : V.is_address a ≡ true) → V.get_address a ≡ ok (checksum a h)
  pub checksum-is_address :
      (a : Text) (h : V.is_address a ≡ true) → V.is_address (checksum a h) ≡ true
  pub checksum_again :
      (a : Text) (h : V.is_address a ≡ true) → V.get_address (checksum a h) ≡ ok (checksum a h)
  pub lower-is_address : (a : Text) → V.is_address a ≡ true → V.is_address (to_lower_case a) ≡ true
  pub get_address-lower :
      (a : Text) (h : V.is_address a ≡ true) → V.get_address (to_lower_case a) ≡ ok (checksum a h)
  pub checksum-lower :
      (a : Text) (h : V.is_address a ≡ true) → to_lower_case (checksum a h) ≡ to_lower_case a
  -- An address is hexadecimal, and hexadecimal digits make at least one byte.
  pub is_address-is_hex : (a : Text) → V.is_address a ≡ true → is_hex a ≡ true
  pub hex_to_bytes_length-is_hex :
      (t : Text) → is_hex t ≡ true → (n : ℕ) × (V.hex_to_bytes_length t ≡ ok (suc n))
