-- ===== src/Tests/Funding.antt =====
-- A funding job that is created, and whose payment is observed.
use xrp_payguard.Base.{◌≡◌, refl, true, none}
use xrp_payguard.Base.Int.{pos, ◌+ℤ◌, ◌-ℤ◌, ◌*ℤ◌, ◌/ℤ◌, ◌%ℤ◌}
use xrp_payguard.Text.{codes}
use xrp_payguard.Failure.{ok}
use xrp_payguard.Integrations.Fdc.{testnet, ExpectedXrplPayment}
use xrp_payguard.Integrations.Funding.{
  FundingState, created, payment_observed, FundingInput, FundingJob,
}
use xrp_payguard.Integrations.Funding.Step.{XrplObservation}
use xrp_payguard.Integrations.Funding.Life.{
  observes, IsNext, FundingStep-IsNext, opened, continued, funding_job-integrity,
}
use xrp_payguard.Tests.Toy.{toy, toy_laws, hash32, address40}
use xrp_payguard.Text.{
  lower, to_lower_case, text_eq, same_hex, is_hex_digit, is_hex_run, is_hex_digits, is_hex32,
  is_hex, text_leb, insert_sorted, sort,
}
use xrp_payguard.Protocol.Codec.Encoding.{
  encode_policy, policy_commitment, optional_bytes32, hash_values, policy_input_commitment,
  genesis_spend_checkpoint, fdc_snapshot_values, fdc_trigger_snapshot_commitment,
}
use xrp_payguard.Protocol.Codec.Digests.{
  binding_values, encode_policy_binding, policy_binding_digest, receipt_values,
  policy_receipt_digest, encode_fcc_attestation, fcc_attestation_digest,
  policy_receipt_attestation_digest, request_values, encode_action_request, action_request_hash,
  decision_code, evaluation_digest, evaluation_attestation_digest,
}
use xrp_payguard.Integrations.Fdc.{
  same_network, same_address, is_nonzero_address, matches_expected_xrpl_payment, is_malformed_proof,
  settle_verifier, verify_with, verify_xrpl_payment_proof,
}
use xrp_payguard.Integrations.Funding.{
  is_nonzero_hex32, out_of_uint256, has_other_fields, is_misshapen, is_refused_address,
}
use xrp_payguard.Integrations.Funding.Integrity.{
  is_other_payment, create_funding_job, assert_funding_job_integrity,
}
use xrp_payguard.Integrations.Funding.Hashes.{
  build_payment_expectation_hash, build_funding_checkpoint_hash, checkpoint_funding_job,
  any_refused, build_operation_hash,
}
use xrp_payguard.Integrations.Funding.Step.{
  is_not_in, accepted_commitment, is_other_commitment, is_not_resumable, check_address,
  observe_xrpl_payment, mark_fdc_requested, accept_fdc_proof, check_receipt, settle_mint,
  execute_with, execute_direct_mint, resume_delayed,
}
use xrp_payguard.Tests.Toy.{is_toy_address, toy_address}

abbrev payment : ExpectedXrplPayment
payment = record {
  network = testnet;
  source_id = hash32 b'6';
  tx_hash = hash32 b'7';
  source = codes "rSource";
  proof_owner = address40 b'8';
  destination = address40 b'3';
  amount_drops = pos 100;
  memo_hash = hash32 b'5';
  min_ledger_index = pos 10;
}

abbrev input : FundingInput
input = record {
  job_id = hash32 b'1';
  owner = address40 b'1';
  personal_account = address40 b'2';
  destination = address40 b'3';
  asset = address40 b'4';
  amount = pos 100;
  executor_fee = pos 1;
  nonce = pos 1;
  memo_hash = hash32 b'5';
  expected_payment = payment;
}

abbrev job_in : FundingState → FundingJob
job_in s = record {
  input = input;
  operation_hash = hash32 b'a';
  expected_payment_hash = hash32 b'a';
  checkpoint_hash = hash32 b'a';
  state = s;
  fdc_request_id = none;
  proof_commitment = none;
  execution_allowed_at = none;
  mint_transaction_hash = none;
}

abbrev observation : XrplObservation
observation = record {
  payment = payment;
  validated = true;
  result = codes "tesSUCCESS";
  ledger_index = pos 12;
}

-- The two operations.
runs :
    (create_funding_job toy input ≡ ok (job_in created))
    × (observe_xrpl_payment toy (job_in created) observation ≡ ok (job_in payment_observed))
unfolding lower to_lower_case text_eq same_hex is_hex_digit is_hex_run is_hex_digits is_hex32 is_hex
    text_leb insert_sorted sort encode_policy policy_commitment optional_bytes32 hash_values
    policy_input_commitment genesis_spend_checkpoint fdc_snapshot_values
    fdc_trigger_snapshot_commitment binding_values encode_policy_binding policy_binding_digest
    receipt_values policy_receipt_digest encode_fcc_attestation fcc_attestation_digest
    policy_receipt_attestation_digest request_values encode_action_request action_request_hash
    decision_code evaluation_digest evaluation_attestation_digest same_network same_address
    is_nonzero_address matches_expected_xrpl_payment is_malformed_proof settle_verifier verify_with
    verify_xrpl_payment_proof is_nonzero_hex32 out_of_uint256 is_other_payment has_other_fields
    is_misshapen is_refused_address build_payment_expectation_hash build_funding_checkpoint_hash
    checkpoint_funding_job any_refused build_operation_hash create_funding_job
    assert_funding_job_integrity is_not_in accepted_commitment is_other_commitment is_not_resumable
    check_address observe_xrpl_payment mark_fdc_requested accept_fdc_proof check_receipt settle_mint
    execute_with execute_direct_mint resume_delayed is_toy_address toy_address ◌+ℤ◌ ◌-ℤ◌ ◌*ℤ◌ ◌/ℤ◌
    ◌%ℤ◌
runs = (refl, refl)

FundingStep-IsNext_example : IsNext toy (job_in created) (job_in payment_observed)
FundingStep-IsNext_example =
    FundingStep-IsNext toy toy_laws (job_in created) (job_in payment_observed)
      (observes observation runs.1)

funding_job-integrity_example :
    (assert_funding_job_integrity toy (job_in payment_observed) ≡ ok tt)
    × ((job_in payment_observed).input ≡ input)
    × (build_operation_hash toy input ≡ ok (hash32 b'a'))
    × (build_payment_expectation_hash toy payment ≡ ok (hash32 b'a'))
funding_job-integrity_example = funding_job-integrity toy toy_laws input (job_in payment_observed) (
    continued (job_in created) (job_in payment_observed) (opened (job_in created) runs.0)
      (observes observation runs.1))
