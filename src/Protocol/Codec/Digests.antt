-- ===== src/Protocol/Codec/Digests.antt =====
-- packages/protocol/src/codec.ts, lines 259 to 347: the encodings and the digests that are signed, of bindings,
-- receipts, requests and results.
use xrp_payguard.Base.{List, [], ◌∷◌, ◌++◌}
use xrp_payguard.Base.Int.{ℤ, pos}
use xrp_payguard.Text.{Text}
use xrp_payguard.Failure.{Result, ok, ◌>>=◌}
use xrp_payguard.Viem.{Viem, AbiValue, number, hex, hexes}
use xrp_payguard.Protocol.Types.{
  PolicyBinding, PolicyReceipt, ActionRequest, EvaluationResult, Decision, allow, deny,
}
use xrp_payguard.Protocol.Constants.{
  policy_schema, action_request, evaluation_result, fcc_policy_receipt_prefix,
  fcc_evaluation_prefix, reason_code,
}
use xrp_payguard.Protocol.Codec.Primitives.{bytes32, uint, address, map_result}
use xrp_payguard.Protocol.Codec.Parameters.{
  policy_binding_parameters, receipt_parameters, request_parameters, result_parameters,
  fcc_attestation_parameters,
}
use xrp_payguard.Protocol.Codec.Encoding.{policy_commitment, hash_values}

module _ (V : Viem) where
  unfoldable pub binding_values : PolicyBinding → Result (List AbiValue)
  binding_values b = do
    chain_id ← uint b.chain_id "chainId"
    registry ← address V b.registry "registry"
    vault ← address V b.vault "vault"
    router ← address V b.router "router"
    owner ← address V b.owner "owner"
    policy_id ← bytes32 b.policy_id "policyId"
    policy_commitment ← bytes32 b.policy_commitment "policyCommitment"
    schema ← bytes32 b.schema "schema"
    extension_id ← bytes32 b.extension_id "extensionId"
    code_version ← bytes32 b.code_version "codeVersion"
    machine_ids ← map_result (λ value. bytes32 value "machineId") b.machine_ids
    key_fingerprints ← map_result (λ value. bytes32 value "keyFingerprint") b.key_fingerprints
    policy_nonce ← uint b.policy_nonce "policyNonce"
    ok (
        hex (policy_schema V)
        ∷ number chain_id
        ∷ hex registry
        ∷ hex vault
        ∷ hex router
        ∷ hex owner
        ∷ hex policy_id
        ∷ number b.policy_version
        ∷ hex policy_commitment
        ∷ hex schema
        ∷ hex extension_id
        ∷ hex code_version
        ∷ hexes machine_ids
        ∷ hexes key_fingerprints
        ∷ number b.custody_threshold
        ∷ number b.result_threshold
        ∷ number policy_nonce
        ∷ [])

  unfoldable pub encode_policy_binding : PolicyBinding → Result Text
  encode_policy_binding binding = do
    values ← binding_values binding
    V.encode_abi_parameters policy_binding_parameters values

  unfoldable pub policy_binding_digest : PolicyBinding → Result Text
  policy_binding_digest binding = do
    encoded ← encode_policy_binding binding
    ok (V.keccak256 encoded)

  unfoldable pub receipt_values : PolicyReceipt → Result (List AbiValue)
  receipt_values r = do
    machine_id ← bytes32 r.machine_id "machineId"
    key_fingerprint ← bytes32 r.key_fingerprint "keyFingerprint"
    submission_nonce ← bytes32 r.submission_nonce "submissionNonce"
    receipt_nonce ← uint r.receipt_nonce "receiptNonce"
    issued_at ← uint r.issued_at "issuedAt"
    expiry ← uint r.expiry "expiry"
    ok (
        hex machine_id
        ∷ hex key_fingerprint
        ∷ hex submission_nonce
        ∷ number receipt_nonce
        ∷ number issued_at
        ∷ number expiry
        ∷ [])

  unfoldable pub policy_receipt_digest : PolicyReceipt → Result Text
  policy_receipt_digest receipt = do
    binding ← binding_values receipt.binding
    own ← receipt_values receipt
    hash_values V receipt_parameters (binding ++ own)

  unfoldable pub encode_fcc_attestation : Text → ℤ → Text → Result Text
  encode_fcc_attestation prefix chain_id data_hash = do
    p ← bytes32 prefix "attestation prefix"
    c ← uint chain_id "attestation chainId"
    d ← bytes32 data_hash "attestation dataHash"
    V.encode_abi_parameters fcc_attestation_parameters (hex p ∷ number c ∷ hex d ∷ [])

  unfoldable pub fcc_attestation_digest : Text → ℤ → Text → Result Text
  fcc_attestation_digest prefix chain_id data_hash = do
    encoded ← encode_fcc_attestation prefix chain_id data_hash
    ok (V.keccak256 encoded)

  unfoldable pub policy_receipt_attestation_digest : PolicyReceipt → Result Text
  policy_receipt_attestation_digest receipt = do
    digest ← policy_receipt_digest receipt
    fcc_attestation_digest (fcc_policy_receipt_prefix V) receipt.binding.chain_id digest

  unfoldable pub request_values : ActionRequest → Result (List AbiValue)
  request_values r = do
    chain_id ← uint r.chain_id "chainId"
    registry ← address V r.registry "registry"
    vault ← address V r.vault "vault"
    router ← address V r.router "router"
    policy_id ← bytes32 r.policy_id "policyId"
    policy_commitment ← bytes32 r.policy_commitment "policyCommitment"
    request_id ← bytes32 r.request_id "requestId"
    request_nonce ← uint r.request_nonce "requestNonce"
    requester ← address V r.requester "requester"
    target ← address V r.target "target"
    asset ← address V r.asset "asset"
    action_type ← bytes32 r.action_type "actionType"
    amount ← uint r.amount "amount"
    schedule_slot ← uint r.schedule_slot "scheduleSlot"
    spend_checkpoint ← bytes32 r.spend_checkpoint "spendCheckpoint"
    balance_checkpoint ← bytes32 r.balance_checkpoint "balanceCheckpoint"
    input_commitment ← bytes32 r.input_commitment "inputCommitment"
    created_at ← uint r.created_at "createdAt"
    grace_deadline ← uint r.grace_deadline "graceDeadline"
    expiry ← uint r.expiry "expiry"
    ok (
        hex (action_request V)
        ∷ number chain_id
        ∷ hex registry
        ∷ hex vault
        ∷ hex router
        ∷ hex policy_id
        ∷ number r.policy_version
        ∷ hex policy_commitment
        ∷ hex request_id
        ∷ number request_nonce
        ∷ number r.attempt
        ∷ hex requester
        ∷ hex target
        ∷ hex asset
        ∷ hex action_type
        ∷ number amount
        ∷ number schedule_slot
        ∷ number r.occurrence
        ∷ hex spend_checkpoint
        ∷ hex balance_checkpoint
        ∷ hex input_commitment
        ∷ number created_at
        ∷ number grace_deadline
        ∷ number expiry
        ∷ [])

  unfoldable pub encode_action_request : ActionRequest → Result Text
  encode_action_request request = do
    values ← request_values request
    V.encode_abi_parameters request_parameters values

  unfoldable pub action_request_hash : ActionRequest → Result Text
  action_request_hash request = do encoded ← encode_action_request request; ok (V.keccak256 encoded)

  unfoldable pub decision_code : Decision → ℤ
  decision_code allow = pos 1
  decision_code deny = pos 0

  unfoldable pub evaluation_digest : EvaluationResult → Result Text
  evaluation_digest result = do
    request ← request_values result.request
    hashed ← action_request_hash result.request
    request_hash ← bytes32 hashed "requestHash"
    reserved_amount ← uint result.reserved_amount "reservedAmount"
    resulting_checkpoint ← bytes32 result.resulting_checkpoint "resultingCheckpoint"
    result_nonce ← bytes32 result.result_nonce "resultNonce"
    issued_at ← uint result.issued_at "issuedAt"
    expiry ← uint result.expiry "expiry"
    hash_values V result_parameters (
        hex (evaluation_result V)
        ∷ (request
            ++ (hex request_hash
                ∷ number (decision_code result.decision)
                ∷ number (pos (reason_code result.public_reason_class))
                ∷ number reserved_amount
                ∷ hex resulting_checkpoint
                ∷ hex result_nonce
                ∷ number result.attempt
                ∷ number issued_at
                ∷ number expiry
                ∷ [])))

  unfoldable pub evaluation_attestation_digest : EvaluationResult → Result Text
  evaluation_attestation_digest result = do
    digest ← evaluation_digest result
    fcc_attestation_digest (fcc_evaluation_prefix V) result.request.chain_id digest
