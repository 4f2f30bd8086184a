-- ===== src/Integrations/Vault.antt =====
-- packages/integrations/src/vault.ts: the public snapshot of a vault, and its wire form. `unknown` is
-- an object with the given own keys, or something else.
pub mod Fields
pub mod Laws
pub mod Reading
use Prim.Native.String.{String}
use xrp_payguard.Base.{
  ℕ, Bool, true, false, ◌||◌, ◌&&◌, not, all, any, List, [], ◌∷◌, Option, none, some, if◌then◌else◌,
}
use xrp_payguard.Base.Int.{ℤ, pos, ◌+ℤ◌, ltb_ℤ, ◌==ℤ◌, max_uint256, max_uint32}
use xrp_payguard.Text.{Text, codes, text_eq, to_lower_case, is_hex32, zero_bytes32, zero_address}
use xrp_payguard.Text.Decimal.{is_decimal, decimal_value, to_string}
use xrp_payguard.Failure.{Result, ok, err, thrown, labelled, ◌>>=◌, ◌>>◌, throw_if}
use xrp_payguard.Viem.{Viem}

pub data Wire : Type 0 where
  text : Text → Wire
  boolean : Bool → Wire
  other : Wire

pub record Field : Type 0 where
  pub key : Text
  pub value : Wire

pub data Unknown : Type 0 where
  object : List Field → Unknown
  not_an_object : Unknown

pub record VaultSnapshot : Type 0 where
  pub chain_id : ℤ
  pub vault : Text
  pub asset : Text
  pub deposited : ℤ
  pub available : ℤ
  pub reserved : ℤ
  pub spent : ℤ
  pub withdrawn : ℤ
  pub refunded : ℤ
  pub checkpoint : Text
  pub emergency_stopped : Bool
  pub policy_count : ℤ

pub data VaultPublicState : Type 0 where
  ready : VaultPublicState
  emergency : VaultPublicState

pub data VaultUnavailableReason : Type 0 where
  rpc_unconfigured : VaultUnavailableReason
  rpc_unavailable : VaultUnavailableReason
  snapshot_unfinalized : VaultUnavailableReason
  snapshot_invalid : VaultUnavailableReason

pub data VaultReadState : Type 0 where
  available_state : VaultPublicState → VaultSnapshot → VaultReadState
  unavailable_state : VaultUnavailableReason → VaultReadState

-- The default reason is `RPC_UNCONFIGURED`.
unfoldable pub unavailable_vault_state : Option VaultUnavailableReason → VaultReadState
unavailable_vault_state none = unavailable_state rpc_unconfigured
unavailable_vault_state (some reason) = unavailable_state reason

abbrev pub wire_fields : List Text
wire_fields =
    codes "chainId"
    ∷ codes "vault"
    ∷ codes "asset"
    ∷ codes "deposited"
    ∷ codes "available"
    ∷ codes "reserved"
    ∷ codes "spent"
    ∷ codes "withdrawn"
    ∷ codes "refunded"
    ∷ codes "checkpoint"
    ∷ codes "emergencyStopped"
    ∷ codes "policyCount"
    ∷ []

unfoldable pub is_wire_field : Text → Bool
is_wire_field key = any (λ k. text_eq k key) wire_fields

-- `record[key]`, of an own key.
unfoldable pub get_field : Text → List Field → Option Wire
get_field key [] = none
get_field key (f ∷ fs) = if text_eq f.key key then some f.value else get_field key fs

abbrev pub is_there : Option Wire → Bool
is_there none = false
is_there (some _) = true

unfoldable pub quoted_uint : Option Wire → String → ℤ → Result ℤ
quoted_uint (some (text value)) label max =
    if not (is_decimal value)
    then err (labelled label "must be a quoted unsigned decimal")
    else if ltb_ℤ max (pos (decimal_value value))
    then err (labelled label "exceeds supported range")
    else ok (pos (decimal_value value))
quoted_uint _ label max = err (labelled label "must be a quoted unsigned decimal")

unfoldable pub checked_add : ℤ → ℤ → Result ℤ
checked_add left right =
    if ltb_ℤ max_uint256 (left +ℤ right)
    then err (thrown "vault conservation sum overflow")
    else ok (left +ℤ right)

-- `[…].reduce(checkedAdd, total)`
unfoldable pub sum_checked : ℤ → List ℤ → Result ℤ
sum_checked total [] = ok total
sum_checked total (n ∷ ns) = do next ← checked_add total n; sum_checked next ns

unfoldable pub decode_checkpoint : Option Wire → Result Text
decode_checkpoint (some (text value)) =
    if not (is_hex32 value) || text_eq (to_lower_case value) zero_bytes32
    then err (thrown "checkpoint must be a non-zero bytes32")
    else ok (to_lower_case value)
decode_checkpoint _ = err (thrown "checkpoint must be a non-zero bytes32")

unfoldable pub decode_stopped : Option Wire → Result Bool
decode_stopped (some (boolean value)) = ok value
decode_stopped _ = err (thrown "emergencyStopped must be boolean")

module _ (V : Viem) where
  unfoldable pub public_address : Option Wire → String → Result Text
  public_address (some (text value)) label =
      if not (V.is_address value) then err (labelled label "must be a non-zero address") else (do
        checksummed ← V.get_address value
        throw_if (text_eq checksummed zero_address) (labelled label "must be a non-zero address")
        ok checksummed)
  public_address _ label = err (labelled label "must be a non-zero address")

  unfoldable pub decode_fields : List Field → Result VaultSnapshot
  decode_fields fields = do
    chain_id ← quoted_uint (get_field (codes "chainId") fields) "chainId" max_uint256
    throw_if (chain_id ==ℤ pos 0) (thrown "chainId must be non-zero")
    vault ← public_address (get_field (codes "vault") fields) "vault"
    asset ← public_address (get_field (codes "asset") fields) "asset"
    deposited ← quoted_uint (get_field (codes "deposited") fields) "deposited" max_uint256
    available ← quoted_uint (get_field (codes "available") fields) "available" max_uint256
    reserved ← quoted_uint (get_field (codes "reserved") fields) "reserved" max_uint256
    spent ← quoted_uint (get_field (codes "spent") fields) "spent" max_uint256
    withdrawn ← quoted_uint (get_field (codes "withdrawn") fields) "withdrawn" max_uint256
    refunded ← quoted_uint (get_field (codes "refunded") fields) "refunded" max_uint256
    checkpoint ← decode_checkpoint (get_field (codes "checkpoint") fields)
    stopped ← decode_stopped (get_field (codes "emergencyStopped") fields)
    policy_count ← quoted_uint (get_field (codes "policyCount") fields) "policyCount" max_uint32
    accounted ← sum_checked (pos 0) (available ∷ reserved ∷ spent ∷ withdrawn ∷ refunded ∷ [])
    throw_if (not (accounted ==ℤ deposited)) (thrown "vault conservation mismatch")
    ok (record {
      chain_id = chain_id;
      vault = vault;
      asset = asset;
      deposited = deposited;
      available = available;
      reserved = reserved;
      spent = spent;
      withdrawn = withdrawn;
      refunded = refunded;
      checkpoint = checkpoint;
      emergency_stopped = stopped;
      policy_count = policy_count;
    })

  -- The messages leave out the key that they name in the source.
  unfoldable pub decode_public_vault_snapshot : Unknown → Result VaultSnapshot
  decode_public_vault_snapshot not_an_object = err (thrown "vault snapshot must be an object")
  decode_public_vault_snapshot (object fields) = do
    throw_if (not (all (λ f. is_wire_field f.key) fields)) (thrown "unknown public vault field")
    throw_if (not (all (λ key. is_there (get_field key fields)) wire_fields))
        (thrown "missing public vault field")
    decode_fields fields

  abbrev pub wire_of : VaultSnapshot → List Field
  wire_of s =
      record { key = codes "chainId"; value = text (to_string s.chain_id) }
      ∷ record { key = codes "vault"; value = text s.vault }
      ∷ record { key = codes "asset"; value = text s.asset }
      ∷ record { key = codes "deposited"; value = text (to_string s.deposited) }
      ∷ record { key = codes "available"; value = text (to_string s.available) }
      ∷ record { key = codes "reserved"; value = text (to_string s.reserved) }
      ∷ record { key = codes "spent"; value = text (to_string s.spent) }
      ∷ record { key = codes "withdrawn"; value = text (to_string s.withdrawn) }
      ∷ record { key = codes "refunded"; value = text (to_string s.refunded) }
      ∷ record { key = codes "checkpoint"; value = text s.checkpoint }
      ∷ record { key = codes "emergencyStopped"; value = boolean s.emergency_stopped }
      ∷ record { key = codes "policyCount"; value = text (to_string s.policy_count) }
      ∷ []

  unfoldable pub encode_public_vault_snapshot : VaultSnapshot → Result Unknown
  encode_public_vault_snapshot snapshot = do
    decoded ← decode_public_vault_snapshot (object (wire_of snapshot))
    ok (object (wire_of snapshot))

  unfoldable pub vault_read_state : VaultSnapshot → Result VaultReadState
  vault_read_state snapshot = do
    wire ← encode_public_vault_snapshot snapshot
    canonical ← decode_public_vault_snapshot wire
    ok (available_state (if canonical.emergency_stopped then emergency else ready) canonical)
