-- ===== src/Protocol/Codec/Encoding.antt =====
-- packages/protocol/src/codec.ts, lines 218 to 351: the values that are encoded, and the digests.
use Prim.Native.String.{String}
use xrp_payguard.Base.{List, [], ◌∷◌, Option, none, some, if◌then◌else◌}
use xrp_payguard.Base.Int.{pos}
use xrp_payguard.Text.{Text, text_eq, zero_bytes32}
use xrp_payguard.Failure.{Result, ok, ◌>>=◌}
use xrp_payguard.Viem.{Viem, AbiType, AbiValue, number, hex, flag, hexes}
use xrp_payguard.Protocol.Types.{Policy, FdcTriggerSnapshot}
use xrp_payguard.Protocol.Constants.{spend_checkpoint_domain, fdc_trigger_snapshot, policy_input}
use xrp_payguard.Protocol.Codec.Primitives.{bytes32, uint, bounded_uint, address}
use xrp_payguard.Protocol.Codec.Policy.{normalize_policy}
use xrp_payguard.Protocol.Codec.Parameters.{policy_parameters, fdc_snapshot_parameters}

abbrev pub policy_values : Policy → List AbiValue
policy_values p =
    number p.schema_version
    ∷ number p.chain_id
    ∷ hex p.registry
    ∷ hex p.vault
    ∷ hex p.router
    ∷ hex p.owner
    ∷ hex p.policy_id
    ∷ number p.policy_version
    ∷ hex p.asset
    ∷ hex p.reference_currency
    ∷ number p.max_per_action
    ∷ number p.daily_cap
    ∷ number p.rolling_cap
    ∷ number p.rolling_window_seconds
    ∷ number p.start_at
    ∷ number p.end_at
    ∷ number p.schedule_interval_seconds
    ∷ number p.schedule_grace_seconds
    ∷ number p.cooldown_seconds
    ∷ number p.max_occurrences
    ∷ hexes p.allow_targets
    ∷ hexes p.deny_targets
    ∷ hexes p.allow_requesters
    ∷ hexes p.allow_action_types
    ∷ flag p.require_ftso
    ∷ hex p.ftso_feed_id
    ∷ number p.max_price_age_seconds
    ∷ flag p.require_fdc
    ∷ hex p.fdc_attestation_type
    ∷ hex p.fdc_source_id
    ∷ hex p.fdc_source_address_hash
    ∷ hex p.fdc_receiving_address_hash
    ∷ number p.fdc_memo_mode
    ∷ flag p.fdc_require_destination_tag
    ∷ number p.fdc_destination_tag
    ∷ number p.fdc_min_received_amount
    ∷ number p.fdc_max_received_amount
    ∷ number p.max_fdc_age_seconds
    ∷ hex p.fdc_consumer
    ∷ hex p.private_salt
    ∷ hex p.submission_nonce
    ∷ []

unfoldable pub encode_policy : Viem → Policy → Result Text
encode_policy V policy = do
  normalized ← normalize_policy V policy
  V.encode_abi_parameters policy_parameters (policy_values normalized)

unfoldable pub policy_commitment : Viem → Policy → Result Text
policy_commitment V policy = do encoded ← encode_policy V policy; ok (V.keccak256 encoded)

unfoldable pub optional_bytes32 : Option Text → String → Result Text
optional_bytes32 none label = ok zero_bytes32
optional_bytes32 (some value) label = bytes32 value label

module _ (V : Viem) where
  -- `keccak256(encodeAbiParameters(…))`
  unfoldable pub hash_values : List AbiType → List AbiValue → Result Text
  hash_values types values = do
    encoded ← V.encode_abi_parameters types values
    ok (V.keccak256 encoded)

  unfoldable pub policy_input_commitment : Option Text → Option Text → Result Text
  policy_input_commitment ftso_checkpoint fdc_input_commitment = do
    ftso ← optional_bytes32 ftso_checkpoint "FTSO checkpoint"
    fdc ← optional_bytes32 fdc_input_commitment "FDC input commitment"
    if text_eq ftso zero_bytes32
        then ok fdc
        else if text_eq fdc zero_bytes32
        then ok ftso
        else hash_values (AbiType.bytes32 ∷ AbiType.bytes32 ∷ AbiType.bytes32 ∷ [])
            (hex (policy_input V) ∷ hex ftso ∷ hex fdc ∷ [])

  unfoldable pub genesis_spend_checkpoint : Text → Result Text
  genesis_spend_checkpoint policy_commitment_value = do
    commitment ← bytes32 policy_commitment_value "policyCommitment"
    hash_values (AbiType.bytes32 ∷ AbiType.bytes32 ∷ AbiType.uint 32 ∷ [])
        (hex (spend_checkpoint_domain V) ∷ hex commitment ∷ number (pos 0) ∷ [])

  unfoldable pub fdc_snapshot_values : FdcTriggerSnapshot → Result (List AbiValue)
  fdc_snapshot_values s = do
    attestation_type ← bytes32 s.attestation_type "attestationType"
    source_id ← bytes32 s.source_id "sourceId"
    transaction_id ← bytes32 s.transaction_id "transactionId"
    proof_owner ← address V s.proof_owner "proofOwner"
    consumer ← address V s.consumer "consumer"
    input_commitment ← bytes32 s.input_commitment "inputCommitment"
    proof_commitment ← bytes32 s.proof_commitment "proofCommitment"
    source_address_hash ← bytes32 s.source_address_hash "sourceAddressHash"
    receiving_address_hash ← bytes32 s.receiving_address_hash "receivingAddressHash"
    received_amount ← uint s.received_amount "receivedAmount"
    memo_data_hash ← bytes32 s.memo_data_hash "memoDataHash"
    destination_tag ← bounded_uint s.destination_tag 32 "destinationTag"
    block_number ← bounded_uint s.block_number 64 "blockNumber"
    block_timestamp ← bounded_uint s.block_timestamp 64 "blockTimestamp"
    request_id ← bytes32 s.request_id "requestId"
    router_request_hash ← bytes32 s.router_request_hash "routerRequestHash"
    router_request_status ← bounded_uint s.router_request_status 8 "routerRequestStatus"
    ok (
        hex (fdc_trigger_snapshot V)
        ∷ hex attestation_type
        ∷ hex source_id
        ∷ hex transaction_id
        ∷ hex proof_owner
        ∷ hex consumer
        ∷ hex input_commitment
        ∷ hex proof_commitment
        ∷ hex source_address_hash
        ∷ hex receiving_address_hash
        ∷ number received_amount
        ∷ flag s.has_memo_data
        ∷ hex memo_data_hash
        ∷ flag s.has_destination_tag
        ∷ number destination_tag
        ∷ number block_number
        ∷ number block_timestamp
        ∷ flag s.transaction_consumed
        ∷ flag s.proof_consumed
        ∷ hex request_id
        ∷ hex router_request_hash
        ∷ number router_request_status
        ∷ [])

  -- The `typeof` tests on the flags hold by their type.
  unfoldable pub fdc_trigger_snapshot_commitment : FdcTriggerSnapshot → Result Text
  fdc_trigger_snapshot_commitment snapshot = do
    values ← fdc_snapshot_values snapshot
    hash_values fdc_snapshot_parameters values
