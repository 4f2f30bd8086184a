-- ===== src/Integrations/Redemption/Hashes.antt =====
-- packages/integrations/src/redemption.ts, lines 144 to 186: the hashes of an intent, of a leg and of a job.
use Prim.Native.String.{String}
use xrp_payguard.Base.{[], ◌∷◌, Option, none, some, is_some}
use xrp_payguard.Base.Int.{ℤ, pos}
use xrp_payguard.Text.{Text, codes, zero_bytes32}
use xrp_payguard.Failure.{Result, ok, ◌>>=◌, ◌>>◌}
use xrp_payguard.Viem.{Viem, AbiType, number, hex, flag, hexes}
use xrp_payguard.Protocol.Codec.Primitives.{map_result}
use xrp_payguard.Protocol.Codec.Encoding.{hash_values}
use xrp_payguard.Integrations.Redemption.{
  RedemptionMethod, amount, with_tag, RedemptionIntent, RedemptionLeg, RedemptionJob,
  job_state_code, leg_state_code,
}
use xrp_payguard.Integrations.Redemption.Checks.{validate_intent}

abbrev pub method_code : RedemptionMethod → ℤ
method_code amount = pos 0
method_code with_tag = pos 1

-- `value ?? zeroHash` and `value ?? 0n`
abbrev pub or_zero_hash : Option Text → Text
or_zero_hash none = zero_bytes32
or_zero_hash (some t) = t

abbrev pub or_zero : Option ℤ → ℤ
or_zero none = pos 0
or_zero (some n) = n

module _ (V : Viem) where
  unfoldable pub text_digest : String → Text
  text_digest s = V.keccak256 (V.string_to_hex (codes s))

  unfoldable pub build_redemption_intent_hash : RedemptionIntent → Result Text
  unfolding text_digest
  build_redemption_intent_hash i = do
    validate_intent V i
    asset_manager ← V.get_address i.asset_manager
    f_asset ← V.get_address i.f_asset
    redeemer ← V.get_address i.redeemer
    executor ← V.get_address i.executor
    hash_values V
        (AbiType.bytes32
          ∷ AbiType.bytes32
          ∷ AbiType.uint 8
          ∷ AbiType.address
          ∷ AbiType.address
          ∷ AbiType.address
          ∷ AbiType.bytes32
          ∷ AbiType.address
          ∷ AbiType.uint 256
          ∷ AbiType.bool
          ∷ AbiType.uint 32
          ∷ [])
        (hex (text_digest "PAYGUARD_FASSETS_REDEMPTION_INTENT_V1")
          ∷ hex i.job_id
          ∷ number (method_code i.method)
          ∷ hex asset_manager
          ∷ hex f_asset
          ∷ hex redeemer
          ∷ hex (V.keccak256 (V.string_to_hex i.payment_address))
          ∷ hex executor
          ∷ number i.requested_amount
          ∷ flag (is_some i.destination_tag)
          ∷ number (or_zero i.destination_tag)
          ∷ [])

  unfoldable pub redemption_leg_hash : RedemptionLeg → Result Text
  unfolding text_digest
  redemption_leg_hash leg = do
    agent_vault ← V.get_address leg.request.agent_vault
    redeemer ← V.get_address leg.request.redeemer
    executor ← V.get_address leg.request.executor
    hash_values V
        (AbiType.bytes32
          ∷ AbiType.address
          ∷ AbiType.address
          ∷ AbiType.uint 64
          ∷ AbiType.bytes32
          ∷ AbiType.uint 256
          ∷ AbiType.uint 256
          ∷ AbiType.uint 64
          ∷ AbiType.uint 64
          ∷ AbiType.uint 64
          ∷ AbiType.bytes32
          ∷ AbiType.address
          ∷ AbiType.uint 256
          ∷ AbiType.bool
          ∷ AbiType.uint 32
          ∷ AbiType.uint 8
          ∷ AbiType.bytes32
          ∷ AbiType.bytes32
          ∷ AbiType.int 256
          ∷ AbiType.uint 256
          ∷ AbiType.uint 256
          ∷ AbiType.bytes32
          ∷ [])
        (hex (text_digest "PAYGUARD_FASSETS_REDEMPTION_LEG_V1")
          ∷ hex agent_vault
          ∷ hex redeemer
          ∷ number leg.request.request_id
          ∷ hex (V.keccak256 (V.string_to_hex leg.request.payment_address))
          ∷ number leg.request.value
          ∷ number leg.request.fee
          ∷ number leg.request.first_underlying_block
          ∷ number leg.request.last_underlying_block
          ∷ number leg.request.last_underlying_timestamp
          ∷ hex leg.request.payment_reference
          ∷ hex executor
          ∷ number leg.request.executor_fee
          ∷ flag (is_some leg.request.destination_tag)
          ∷ number (or_zero leg.request.destination_tag)
          ∷ number (leg_state_code leg.state)
          ∷ hex (or_zero_hash leg.flare_transaction_hash)
          ∷ hex (or_zero_hash leg.underlying_transaction_hash)
          ∷ number (or_zero leg.spent_underlying)
          ∷ number (or_zero leg.vault_collateral)
          ∷ number (or_zero leg.pool_collateral)
          ∷ hex (or_zero_hash leg.settlement_proof)
          ∷ [])

  unfoldable pub build_redemption_checkpoint_hash : RedemptionJob → Result Text
  unfolding text_digest
  build_redemption_checkpoint_hash job = do
    leaves ← map_result redemption_leg_hash job.requests
    requests_root ← hash_values V (AbiType.array AbiType.bytes32 ∷ []) (hexes leaves ∷ [])
    hash_values V
        (AbiType.bytes32
          ∷ AbiType.bytes32
          ∷ AbiType.uint 8
          ∷ AbiType.bytes32
          ∷ AbiType.uint 256
          ∷ AbiType.uint 256
          ∷ AbiType.bytes32
          ∷ [])
        (hex (text_digest "PAYGUARD_FASSETS_REDEMPTION_CHECKPOINT_V1")
          ∷ hex job.intent_hash
          ∷ number (job_state_code job.state)
          ∷ hex (or_zero_hash job.request_transaction_hash)
          ∷ number (or_zero job.redeemed_amount)
          ∷ number (or_zero job.remaining_amount)
          ∷ hex requests_root
          ∷ [])

  unfoldable pub checkpoint_redemption_job : RedemptionJob → Result RedemptionJob
  checkpoint_redemption_job job = do
    hash ← build_redemption_checkpoint_hash job
    ok (record job { checkpoint_hash = hash })
