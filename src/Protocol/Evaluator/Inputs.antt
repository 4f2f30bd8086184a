-- ===== src/Protocol/Evaluator/Inputs.antt =====
-- packages/protocol/src/evaluator.ts, lines 42 to 140: the result of a denial, and the tests of the
-- evaluator's inputs.
use xrp_payguard.Base.{
  ◌^◌, Bool, false, ◌||◌, ◌&&◌, not, same_bool, is_some, any, List, [], ◌∷◌, Option, none, some,
  if◌then◌else◌,
}
use mathlib.Core.Option
use xrp_payguard.Base.Int.{
  ℤ, pos, pos_part, ◌+ℤ◌, ◌-ℤ◌, ◌*ℤ◌, ◌/ℤ◌, ◌%ℤ◌, ltb_ℤ, leb_ℤ, ◌==ℤ◌, max_uint256,
}
use xrp_payguard.Text.{Text, text_eq, same_hex, zero_bytes32}
use xrp_payguard.Failure.{Result, ok, recover, ◌>>=◌}
use xrp_payguard.Viem.{Viem, AbiType, number, hex}
use xrp_payguard.Protocol.Types.{
  Policy, ActionRequest, FtsoSnapshot, FdcTriggerSnapshot, EvaluationResult, PublicReasonClass,
  deny,
}
use xrp_payguard.Protocol.Constants.{spend_checkpoint_domain}
use xrp_payguard.Protocol.Codec.Digests.{action_request_hash}
use xrp_payguard.Protocol.Codec.Encoding.{
  fdc_trigger_snapshot_commitment, policy_input_commitment, hash_values,
}

-- `deny` with the default machine and key.
unfoldable pub denial : ActionRequest → PublicReasonClass → ℤ → EvaluationResult
denial request reason now = record {
  request = request;
  decision = deny;
  public_reason_class = reason;
  reserved_amount = pos 0;
  resulting_checkpoint = request.spend_checkpoint;
  result_nonce = request.request_id;
  attempt = request.attempt;
  issued_at = now;
  expiry = request.expiry;
  machine_id = zero_bytes32;
  key_fingerprint = zero_bytes32;
}

-- `containsAddress` and `containsBytes32`, which are one function.
unfoldable pub contains : List Text → Text → Bool
contains values value = any (λ candidate. same_hex candidate value) values

unfoldable pub reference_value : ℤ → ℤ → ℤ → Option ℤ
reference_value amount price price_decimals =
    if ltb_ℤ amount (pos 0)
      || (ltb_ℤ max_uint256 amount
          || (leb_ℤ price (pos 0)
              || (ltb_ℤ max_uint256 price
                  || (ltb_ℤ price_decimals (pos 0) || ltb_ℤ (pos 36) price_decimals))))
    then none
    else (let scale = pos (10 ^ pos_part price_decimals) in
        if not (amount ==ℤ pos 0) && ltb_ℤ (max_uint256 /ℤ amount) price
        then none
        else (let product = amount *ℤ price in
            some (product /ℤ scale +ℤ (if product %ℤ scale ==ℤ pos 0 then pos 0 else pos 1))))

unfoldable pub matches_policy_domain : Policy → ActionRequest → Text → Bool
matches_policy_domain policy request commitment =
    request.chain_id ==ℤ policy.chain_id
    && (same_hex request.registry policy.registry
        && (same_hex request.vault policy.vault
            && (same_hex request.router policy.router
                && (same_hex request.policy_id policy.policy_id
                    && (request.policy_version ==ℤ policy.policy_version
                        && same_hex request.policy_commitment commitment)))))

unfoldable pub ftso_reference_value : Policy → ActionRequest → Option FtsoSnapshot → ℤ → Option ℤ
ftso_reference_value policy request none now = none
ftso_reference_value policy request (some feed) now =
    if not (same_hex feed.feed_id policy.ftso_feed_id)
      || (ltb_ℤ now feed.timestamp
          || (ltb_ℤ policy.max_price_age_seconds (now -ℤ feed.timestamp)
              || text_eq feed.checkpoint zero_bytes32))
    then none
    else reference_value request.amount feed.value feed.decimals

module _ (V : Viem) where
  unfoldable pub next_checkpoint : ActionRequest → ℤ → ℤ → ℤ → Result Text
  next_checkpoint request amount occurrence now = do
    request_hash ← action_request_hash V request
    hash_values V
        (AbiType.bytes32
          ∷ AbiType.bytes32
          ∷ AbiType.bytes32
          ∷ AbiType.uint 256
          ∷ AbiType.uint 32
          ∷ AbiType.uint 64
          ∷ [])
        (hex (spend_checkpoint_domain V)
          ∷ hex request.spend_checkpoint
          ∷ hex request_hash
          ∷ number amount
          ∷ number occurrence
          ∷ number now
          ∷ [])

  -- The conjuncts of `validFdcSnapshot`, given the request's hash.
  unfoldable pub fdc_matches : Policy → ActionRequest → FdcTriggerSnapshot → ℤ → Text → Bool
  fdc_matches policy request s now request_hash =
      same_hex s.attestation_type policy.fdc_attestation_type
      && (same_hex s.source_id policy.fdc_source_id
          && (not (text_eq s.transaction_id zero_bytes32)
              && (not (text_eq s.input_commitment zero_bytes32)
                  && (not (text_eq s.proof_commitment zero_bytes32)
                      && (same_hex s.consumer policy.fdc_consumer
                          && (same_hex s.proof_owner policy.fdc_consumer
                              && (same_hex s.source_address_hash policy.fdc_source_address_hash
                                  && (same_hex s.receiving_address_hash
                                        policy.fdc_receiving_address_hash
                                      && (leb_ℤ policy.fdc_min_received_amount s.received_amount
                                          && (leb_ℤ s.received_amount policy.fdc_max_received_amount
                                              && (s.has_memo_data
                                                  && (policy.fdc_memo_mode ==ℤ pos 1
                                                      && (same_hex s.memo_data_hash
                                                            (V.keccak256 request.request_id)
                                                          && (same_bool s.has_destination_tag
                                                            policy.fdc_require_destination_tag
                                                            && (s.destination_tag
                                                            ==ℤ policy.fdc_destination_tag
                                                            && (ltb_ℤ (pos 0) s.block_number
                                                            && (leb_ℤ s.block_timestamp now
                                                            && (leb_ℤ (now -ℤ s.block_timestamp)
                                                            policy.max_fdc_age_seconds
                                                            && (s.transaction_consumed
                                                            && (s.proof_consumed
                                                            && (same_hex s.request_id
                                                            request.request_id
                                                            && (same_hex s.router_request_hash
                                                            request_hash
                                                            && s.router_request_status
                                                            ==ℤ pos 1))))))))))))))))))))))

  -- The hash is taken before the conjuncts and not between them: where it throws the answer is false
  -- either way.
  unfoldable pub valid_fdc_snapshot : Policy → ActionRequest → Option FdcTriggerSnapshot → ℤ → Bool
  valid_fdc_snapshot policy request none now = false
  valid_fdc_snapshot policy request (some s) now =
      recover
        (do
          commitment ← fdc_trigger_snapshot_commitment V s
          request_hash ← action_request_hash V request
          ok (fdc_matches policy request s now request_hash))
        false

  unfoldable pub input_commitment_matches :
      Policy → ActionRequest → Option FtsoSnapshot → Option FdcTriggerSnapshot → Result Bool
  input_commitment_matches policy request ftso fdc =
      if not policy.require_ftso && is_some ftso || not policy.require_fdc && is_some fdc
      then ok false
      else do
        expected ←
            policy_input_commitment V
              (if policy.require_ftso then Option.map (λ feed. feed.checkpoint) ftso else none)
              (if policy.require_fdc then Option.map (λ s. s.input_commitment) fdc else none)
        ok (same_hex request.input_commitment expected)
