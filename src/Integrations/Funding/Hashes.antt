-- ===== src/Integrations/Funding/Hashes.antt =====
-- packages/integrations/src/funding.ts: the hashes of an operation, of an expected payment and of a job.
use Prim.Native.String.{String}
use xrp_payguard.Base.{
  Bool, true, false, ◌||◌, not, List, [], ◌∷◌, Option, none, some, if◌then◌else◌,
}
use xrp_payguard.Base.Int.{ℤ, pos, ltb_ℤ, leb_ℤ, max_uint256, max_uint64}
use xrp_payguard.Text.{Text, codes, is_hex32, zero_bytes32}
use xrp_payguard.Failure.{Result, ok, thrown, ◌>>=◌, ◌>>◌, throw_if}
use xrp_payguard.Viem.{Viem, AbiType, number, hex}
use xrp_payguard.Protocol.Codec.Encoding.{hash_values}
use xrp_payguard.Integrations.Fdc.{Network, testnet, mainnet, ExpectedXrplPayment}
use xrp_payguard.Integrations.Funding.{
  funding_state_code, FundingInput, FundingJob, out_of_uint256, is_refused_address,
}

abbrev or_zero : Option Text → Text
or_zero none = zero_bytes32
or_zero (some t) = t

abbrev or_zero_at : Option ℤ → ℤ
or_zero_at none = pos 0
or_zero_at (some n) = n

abbrev is_empty : Text → Bool
is_empty [] = true
is_empty (_ ∷ _) = false

abbrev network_code : Network → ℤ
network_code testnet = pos 0
network_code mainnet = pos 1

module _ (V : Viem) where
  text_digest : String → Text
  text_digest s = V.keccak256 (V.string_to_hex (codes s))

  -- The test of the network holds by its type.
  unfoldable pub build_payment_expectation_hash : ExpectedXrplPayment → Result Text
  unfolding text_digest
  build_payment_expectation_hash e = do
    throw_if
        (not (is_hex32 e.source_id)
          || (not (is_hex32 e.tx_hash) || (not (is_hex32 e.memo_hash) || is_empty e.source)))
        (thrown "payment expectation invalid")
    refused_owner ← is_refused_address V e.proof_owner
    throw_if
        (refused_owner
          || (not (V.is_address e.destination)
              || (leb_ℤ e.amount_drops (pos 0)
                  || (ltb_ℤ max_uint256 e.amount_drops || out_of_uint256 e.min_ledger_index))))
        (thrown "payment expectation invalid")
    hash_values V
        (AbiType.bytes32
          ∷ AbiType.uint 8
          ∷ AbiType.address
          ∷ AbiType.bytes32
          ∷ AbiType.bytes32
          ∷ AbiType.bytes32
          ∷ AbiType.address
          ∷ AbiType.uint 256
          ∷ AbiType.bytes32
          ∷ AbiType.uint 256
          ∷ [])
        (hex (text_digest "PAYGUARD_XRPL_PAYMENT_EXPECTATION_V1")
          ∷ number (network_code e.network)
          ∷ hex e.proof_owner
          ∷ hex e.source_id
          ∷ hex e.tx_hash
          ∷ hex (V.keccak256 (V.string_to_hex e.source))
          ∷ hex e.destination
          ∷ number e.amount_drops
          ∷ hex e.memo_hash
          ∷ number e.min_ledger_index
          ∷ [])

  unfoldable pub build_funding_checkpoint_hash : FundingJob → Result Text
  unfolding text_digest
  build_funding_checkpoint_hash job = do
    throw_if
        (not (is_hex32 job.input.job_id)
          || (not (is_hex32 job.operation_hash)
              || (not (is_hex32 job.expected_payment_hash)
                  || (not (is_hex32 (or_zero job.fdc_request_id))
                      || (not (is_hex32 (or_zero job.proof_commitment))
                          || (not (is_hex32 (or_zero job.mint_transaction_hash))
                              || (ltb_ℤ (or_zero_at job.execution_allowed_at) (pos 0)
                                  || ltb_ℤ max_uint64 (or_zero_at job.execution_allowed_at))))))))
        (thrown "funding checkpoint invalid")
    hash_values V
        (AbiType.bytes32
          ∷ AbiType.bytes32
          ∷ AbiType.bytes32
          ∷ AbiType.bytes32
          ∷ AbiType.uint 8
          ∷ AbiType.bytes32
          ∷ AbiType.bytes32
          ∷ AbiType.uint 64
          ∷ AbiType.bytes32
          ∷ [])
        (hex (text_digest "PAYGUARD_FUNDING_CHECKPOINT_V1")
          ∷ hex job.input.job_id
          ∷ hex job.operation_hash
          ∷ hex job.expected_payment_hash
          ∷ number (funding_state_code job.state)
          ∷ hex (or_zero job.fdc_request_id)
          ∷ hex (or_zero job.proof_commitment)
          ∷ number (or_zero_at job.execution_allowed_at)
          ∷ hex (or_zero job.mint_transaction_hash)
          ∷ [])

  unfoldable pub checkpoint_funding_job : FundingJob → Result FundingJob
  checkpoint_funding_job job = do
    hash ← build_funding_checkpoint_hash job
    ok (record job { checkpoint_hash = hash })

  -- `addresses.some(…)`
  unfoldable pub any_refused : List Text → Result Bool
  any_refused [] = ok false
  any_refused (a ∷ addresses) = do
    refused_first ← is_refused_address V a
    if refused_first then ok true else any_refused addresses

  unfoldable pub build_operation_hash : FundingInput → Result Text
  unfolding text_digest
  build_operation_hash i = do
    refused_address ← any_refused (i.owner ∷ i.personal_account ∷ i.destination ∷ i.asset ∷ [])
    throw_if
        (refused_address
          || (leb_ℤ i.amount (pos 0)
              || (ltb_ℤ max_uint256 i.amount
                  || (out_of_uint256 i.executor_fee
                      || (out_of_uint256 i.nonce || not (is_hex32 i.memo_hash))))))
        (thrown "funding operation invalid")
    hash_values V
        (AbiType.bytes32
          ∷ AbiType.address
          ∷ AbiType.address
          ∷ AbiType.address
          ∷ AbiType.address
          ∷ AbiType.uint 256
          ∷ AbiType.uint 256
          ∷ AbiType.uint 256
          ∷ AbiType.bytes32
          ∷ [])
        (hex (text_digest "PAYGUARD_SMART_ACCOUNT_OPERATION_V1")
          ∷ hex i.owner
          ∷ hex i.personal_account
          ∷ hex i.destination
          ∷ hex i.asset
          ∷ number i.amount
          ∷ number i.executor_fee
          ∷ number i.nonce
          ∷ hex i.memo_hash
          ∷ [])
