-- ===== src/Integrations/Redemption.antt =====
-- packages/integrations/src/redemption.ts, lines 1 to 109: the redemption of f-assets, its data. `status` and
-- `method` hold by the types; the literal sets of the program are lists here, and an identifier stands for
-- its decimal spelling.
pub mod Hashes
pub mod Checks
pub mod Integrity
pub mod Step
pub mod Sending
pub mod Events
pub mod Laws
pub mod Legs
pub mod Settle
pub mod Replaced
pub mod Accept
pub mod Request
pub mod Amounts
pub mod Life
pub mod Outcome
pub mod Ledger
pub mod Replay
use Prim.Native.String.{String}
use xrp_payguard.Base.{
  ℕ, ◌+◌, ◌^◌, ◌-◌, Bool, true, false, ◌||◌, ◌&&◌, not, any, List, [], ◌∷◌, Option, none, some,
  is_some, ltb, leb, if◌then◌else◌,
}
use xrp_payguard.Base.Int.{
  ℤ, pos, negsuc, ◌+ℤ◌, ltb_ℤ, leb_ℤ, ◌==ℤ◌, max_uint256, max_uint64, max_uint32,
}
use xrp_payguard.Text.{
  Text, codes, text_eq, same_hex, to_lower_case, is_hex32, zero_bytes32, zero_address,
}
use xrp_payguard.Failure.{Result, ok, err, Error, thrown, ◌>>=◌, ◌>>◌, throw_if}
use xrp_payguard.Viem.{Viem, AbiType, AbiValue, number, hex, flag, hexes}
use xrp_payguard.Protocol.Codec.Primitives.{map_result}
use xrp_payguard.Protocol.Codec.Encoding.{hash_values}

pub data RedemptionMethod : Type 0 where
  amount with_tag : RedemptionMethod

pub data RedemptionJobState : Type 0 where
  created requested settled : RedemptionJobState

pub data RedemptionLegState : Type 0 where
  pending underlying_paid collateral_default : RedemptionLegState

pub data RedemptionOutcome : Type 0 where
  not_requested still_pending all_paid all_defaulted mixed : RedemptionOutcome

pub record RedemptionIntent : Type 0 where
  pub job_id : Text
  pub method : RedemptionMethod
  pub asset_manager : Text
  pub f_asset : Text
  pub redeemer : Text
  pub payment_address : Text
  pub executor : Text
  pub requested_amount : ℤ
  pub destination_tag : Option ℤ

-- `RedemptionRequestedEventV1`.
pub record LegRequest : Type 0 where
  pub agent_vault : Text
  pub redeemer : Text
  pub request_id : ℤ
  pub payment_address : Text
  pub value : ℤ
  pub fee : ℤ
  pub first_underlying_block : ℤ
  pub last_underlying_block : ℤ
  pub last_underlying_timestamp : ℤ
  pub payment_reference : Text
  pub executor : Text
  pub executor_fee : ℤ
  pub destination_tag : Option ℤ

pub record RedemptionLeg : Type 0 where
  pub request : LegRequest
  pub state : RedemptionLegState
  pub flare_transaction_hash : Option Text
  pub underlying_transaction_hash : Option Text
  pub spent_underlying : Option ℤ
  pub vault_collateral : Option ℤ
  pub pool_collateral : Option ℤ
  pub settlement_proof : Option Text

pub record RedemptionJob : Type 0 where
  pub intent : RedemptionIntent
  pub intent_hash : Text
  pub checkpoint_hash : Text
  pub state : RedemptionJobState
  pub request_transaction_hash : Option Text
  pub redeemed_amount : Option ℤ
  pub remaining_amount : Option ℤ
  pub requests : List RedemptionLeg

abbrev pub job_state_code : RedemptionJobState → ℤ
job_state_code created = pos 0
job_state_code requested = pos 1
job_state_code settled = pos 2

abbrev pub leg_state_code : RedemptionLegState → ℤ
leg_state_code pending = pos 0
leg_state_code underlying_paid = pos 1
leg_state_code collateral_default = pos 2
