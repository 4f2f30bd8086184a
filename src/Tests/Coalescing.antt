-- ===== src/Tests/Coalescing.antt =====
-- Two calls for one request whose states differ in the FDC snapshot only. The evaluator approves with
-- the one and denies with the other; the relay gives the second call the promise of the first.
use xrp_payguard.Base.{◌≡◌, refl, true, false, List, [], ◌∷◌, ◌++◌, some, Member, here}
use xrp_payguard.Base.Int.{pos, ◌+ℤ◌, ◌-ℤ◌, ◌*ℤ◌, ◌/ℤ◌, ◌%ℤ◌}
use xrp_payguard.Text.{Text, codes}
use xrp_payguard.Text.Decimal.{to_string}
use xrp_payguard.Failure.{Result, ok, err}
use xrp_payguard.Viem.{Viem, AbiValue}
use xrp_payguard.Protocol.Types.{
  Policy, ActionRequest, SpendState, FdcTriggerSnapshot, PublicReasonClass,
}
use xrp_payguard.Relay.Types.{MachineDescriptor}
use xrp_payguard.Relay.Telemetry.{evaluation_was_coalesced}
use xrp_payguard.Relay.Service.{Relay, new_relay, existing}
use xrp_payguard.Relay.Key.Laws.{evaluation_key-forget_fdc}
use xrp_payguard.Tests.Toy.{toy, address40, hash32, is_toy_address, toy_address}
use xrp_payguard.Tests.Inputs.{policy, request_at, state}
use xrp_payguard.Text.{
  lower, to_lower_case, text_eq, same_hex, is_hex_digit, is_hex_run, is_hex_digits, is_hex32,
  is_hex, text_leb, insert_sorted, sort,
}
use xrp_payguard.Text.Decimal.{digits, decimal, value_from, decimal_value, is_digit, is_decimal}
use xrp_payguard.Protocol.Schedule.{out_of_range, close_window, window_at, schedule_window}
use xrp_payguard.Protocol.SpendWindow.{
  is_bad_entry, add_checked, sum_entries, is_bad_window, spend_window_totals,
}
use xrp_payguard.Protocol.Violations.{
  flag, reason_of, mask_from, policy_violation_mask, and_not, has_flag, first_reason,
  compose_policy_decision, raise,
}
use xrp_payguard.Protocol.Codec.Primitives.{
  bytes32, uint, bounded_uint, map_result, has_duplicate_neighbours, distinct, address,
  lower_address, sorted_addresses, sorted_bytes32,
}
use xrp_payguard.Protocol.Codec.Normalize.{
  normalize_identifiers, is_bad_schedule, normalize_times, check_ftso_feed, normalize_domain,
  is_incomplete_fdc, is_unexpected_fdc, check_fdc, normalize_fdc, normalize_limits,
}
use xrp_payguard.Protocol.Codec.Policy.{normalize_policy}
use xrp_payguard.Protocol.Codec.Encoding.{
  encode_policy, policy_commitment, optional_bytes32, hash_values, policy_input_commitment,
  genesis_spend_checkpoint, fdc_snapshot_values, fdc_trigger_snapshot_commitment,
}
use xrp_payguard.Protocol.Codec.Digests.{
  binding_values, encode_policy_binding, policy_binding_digest, receipt_values,
  policy_receipt_digest, encode_fcc_attestation, fcc_attestation_digest,
  policy_receipt_attestation_digest, request_values, encode_action_request, action_request_hash,
  decision_code, evaluation_digest, evaluation_attestation_digest,
}
use xrp_payguard.Protocol.Evaluator.Inputs.{
  denial, contains, reference_value, matches_policy_domain, ftso_reference_value, next_checkpoint,
  fdc_matches, valid_fdc_snapshot, input_commitment_matches,
}
use xrp_payguard.Protocol.Evaluator.History.{
  last_accounting, is_malformed_entry, entry_value, check_entry_fdc, mismatch_reason, replay_entry,
  replay_from, is_stale_history, replay_spend_history,
}
use xrp_payguard.Protocol.Evaluator.Rules.{
  is_malformed_input, is_stale_position, is_wrong_genesis, is_stale, is_malformed_request,
  is_outside_term, is_outside_window, is_off_schedule, is_nonempty, is_target_denied,
  is_requester_denied, is_action_denied, is_exhausted, is_cooling_down, is_over_cap,
  plain_violations, priced_amount, value_or_amount, bind_input, cap_violations, feed_violations,
  is_unbound_input, rule_violations,
}
use xrp_payguard.Protocol.Evaluator.Evaluate.{
  approval, conclude, judge, evaluate_steps, settle, evaluate_policy,
}
use xrp_payguard.Relay.Machines.{
  has, is_local_endpoint, is_refused_endpoint, is_malformed_machine, validate_machine,
  validate_from, validate_machines,
}
use xrp_payguard.Relay.Service.{
  start_evaluation, evaluate, delete, ending_of, record_ending, finish_evaluation, is_not_ready,
  submission_key, submit_threshold, finish_submission,
}
use xrp_payguard.Relay.Key.{public_state, evaluation_key}

-- The policy, asking for a payment proof.
abbrev proof_policy : Policy
proof_policy = record policy {
  require_fdc = true;
  fdc_attestation_type = hash32 b'b';
  fdc_source_id = hash32 b'1';
  fdc_source_address_hash = hash32 b'2';
  fdc_receiving_address_hash = hash32 b'3';
  fdc_memo_mode = pos 1;
  fdc_min_received_amount = pos 10;
  fdc_max_received_amount = pos 100;
  max_fdc_age_seconds = pos 600;
  fdc_consumer = address40 b'8';
}

-- The first request of it.
abbrev request : ActionRequest
request = record (request_at 50 1 1000) { input_commitment = hash32 b'5' }

abbrev consumed : FdcTriggerSnapshot
consumed = record {
  attestation_type = hash32 b'b';
  source_id = hash32 b'1';
  transaction_id = hash32 b'4';
  proof_owner = address40 b'8';
  consumer = address40 b'8';
  input_commitment = hash32 b'5';
  proof_commitment = hash32 b'6';
  source_address_hash = hash32 b'2';
  receiving_address_hash = hash32 b'3';
  received_amount = pos 50;
  has_memo_data = true;
  memo_data_hash = hash32 b'a';
  has_destination_tag = false;
  destination_tag = pos 0;
  block_number = pos 12;
  block_timestamp = pos 1000;
  transaction_consumed = true;
  proof_consumed = true;
  request_id = hash32 b'7';
  router_request_hash = hash32 b'a';
  router_request_status = pos 1;
}

-- The facts with the proof consumed, and the same before it is.
abbrev late_state : SpendState
late_state = record state {
  history = [];
  occurrence_count = pos 0;
  last_accounting_at = pos 0;
  now = pos 1050;
  fdc = some consumed;
}

abbrev early_state : SpendState
early_state = record late_state { fdc = some (record consumed { proof_consumed = false }) }

evaluations_differ :
    (evaluate_policy toy proof_policy request late_state
      ≡ ok (approval request (hash32 b'a') (pos 1050)))
    × (evaluate_policy toy proof_policy request early_state
        ≡ ok (denial request PublicReasonClass.fdc_invalid (pos 1050)))
unfolding lower to_lower_case text_eq same_hex is_hex_digit is_hex_run is_hex_digits is_hex32 is_hex
    text_leb insert_sorted sort digits decimal value_from decimal_value is_digit is_decimal
    out_of_range close_window window_at schedule_window is_bad_entry add_checked sum_entries
    is_bad_window spend_window_totals flag reason_of mask_from policy_violation_mask and_not
    has_flag first_reason compose_policy_decision raise bytes32 uint bounded_uint map_result
    has_duplicate_neighbours distinct address lower_address sorted_addresses sorted_bytes32
    normalize_identifiers is_bad_schedule normalize_times check_ftso_feed normalize_domain
    is_incomplete_fdc is_unexpected_fdc check_fdc normalize_fdc normalize_limits normalize_policy
    encode_policy policy_commitment optional_bytes32 hash_values policy_input_commitment
    genesis_spend_checkpoint fdc_snapshot_values fdc_trigger_snapshot_commitment binding_values
    encode_policy_binding policy_binding_digest receipt_values policy_receipt_digest
    encode_fcc_attestation fcc_attestation_digest policy_receipt_attestation_digest request_values
    encode_action_request action_request_hash decision_code evaluation_digest
    evaluation_attestation_digest denial contains reference_value matches_policy_domain
    ftso_reference_value next_checkpoint fdc_matches valid_fdc_snapshot input_commitment_matches
    last_accounting is_malformed_entry entry_value check_entry_fdc mismatch_reason replay_entry
    replay_from is_stale_history replay_spend_history is_malformed_input is_stale_position
    is_wrong_genesis is_stale is_malformed_request is_outside_term is_outside_window is_off_schedule
    is_nonempty is_target_denied is_requester_denied is_action_denied is_exhausted is_cooling_down
    is_over_cap plain_violations priced_amount value_or_amount bind_input cap_violations
    feed_violations is_unbound_input rule_violations approval conclude judge evaluate_steps settle
    evaluate_policy is_toy_address toy_address ◌+ℤ◌ ◌-ℤ◌ ◌*ℤ◌ ◌/ℤ◌ ◌%ℤ◌
evaluations_differ = (refl, refl)

-- An instance whose digest is the text itself and whose encoding joins the values, so that the keys of
-- different texts differ.
abbrev join : List AbiValue → Text
join [] = []
join (AbiValue.number n ∷ vs) = to_string n ++ join vs
join (AbiValue.hex t ∷ vs) = t ++ join vs
join (_ ∷ vs) = join vs

abbrev plain : Viem
plain = record toy { keccak256 = λ t. t; encode_abi_parameters = λ types values. ok (join values) }

abbrev machines : List MachineDescriptor
machines =
    record {
      machine_id = hash32 b'1';
      key_fingerprint = hash32 b'4';
      signer = address40 b'1';
      endpoint = codes "https://machine";
    }
    ∷ []

abbrev text_of : Result Text → Text
text_of (ok t) = t
text_of (err _) = []

-- The key of the call with the early facts.
abbrev early_key : Text
early_key = text_of (evaluation_key plain (λ t. ok t) request early_state machines)

keys_of_states :
    (evaluation_key plain (λ t. ok t) request early_state machines ≡ ok early_key)
    × (text_eq early_key (
          text_of (
            evaluation_key plain
              (λ t. ok t)
              request
              (record early_state { now = pos 1051 })
              machines))
        ≡ false)
unfolding lower to_lower_case text_eq same_hex is_hex_digit is_hex_run is_hex_digits is_hex32 is_hex
    text_leb insert_sorted sort digits decimal value_from decimal_value is_digit is_decimal
    out_of_range close_window window_at schedule_window is_bad_entry add_checked sum_entries
    is_bad_window spend_window_totals flag reason_of mask_from policy_violation_mask and_not
    has_flag first_reason compose_policy_decision raise bytes32 uint bounded_uint map_result
    has_duplicate_neighbours distinct address lower_address sorted_addresses sorted_bytes32
    normalize_identifiers is_bad_schedule normalize_times check_ftso_feed normalize_domain
    is_incomplete_fdc is_unexpected_fdc check_fdc normalize_fdc normalize_limits normalize_policy
    encode_policy policy_commitment optional_bytes32 hash_values policy_input_commitment
    genesis_spend_checkpoint fdc_snapshot_values fdc_trigger_snapshot_commitment binding_values
    encode_policy_binding policy_binding_digest receipt_values policy_receipt_digest
    encode_fcc_attestation fcc_attestation_digest policy_receipt_attestation_digest request_values
    encode_action_request action_request_hash decision_code evaluation_digest
    evaluation_attestation_digest denial contains reference_value matches_policy_domain
    ftso_reference_value next_checkpoint fdc_matches valid_fdc_snapshot input_commitment_matches
    last_accounting is_malformed_entry entry_value check_entry_fdc mismatch_reason replay_entry
    replay_from is_stale_history replay_spend_history is_malformed_input is_stale_position
    is_wrong_genesis is_stale is_malformed_request is_outside_term is_outside_window is_off_schedule
    is_nonempty is_target_denied is_requester_denied is_action_denied is_exhausted is_cooling_down
    is_over_cap plain_violations priced_amount value_or_amount bind_input cap_violations
    feed_violations is_unbound_input rule_violations approval conclude judge evaluate_steps settle
    evaluate_policy has is_local_endpoint is_refused_endpoint is_malformed_machine validate_machine
    validate_from validate_machines start_evaluation evaluate delete ending_of record_ending
    finish_evaluation is_not_ready submission_key submit_threshold finish_submission public_state
    evaluation_key is_toy_address toy_address ◌+ℤ◌ ◌-ℤ◌ ◌*ℤ◌ ◌/ℤ◌ ◌%ℤ◌
keys_of_states = (refl, refl)

-- The relay with the first call in flight.
abbrev busy_relay : Relay
busy_relay = start_evaluation early_key new_relay

in_flight : Member early_key busy_relay.in_flight_evaluations
unfolding start_evaluation
in_flight = here

evaluation_key-forget_fdc_example :
    evaluate 8 (evaluation_key plain (λ t. ok t) request late_state machines) busy_relay ≡ (
      record busy_relay { telemetry = evaluation_was_coalesced busy_relay.telemetry },
      existing early_key,
    )
evaluation_key-forget_fdc_example =
    evaluation_key-forget_fdc plain (λ t. ok t) request machines early_state late_state early_key 8
      busy_relay refl keys_of_states.0 in_flight
