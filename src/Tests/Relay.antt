-- ===== src/Tests/Relay.antt =====
-- The relay with three machines, two of which answer alike.
use xrp_payguard.Base.{
  suc, ℕ, ◌≡◌, refl, ◌+◌, true, List, [], ◌∷◌, map, take, length, All, Distinct, Member, here, some,
  none,
}
use xrp_payguard.Base.Int.{pos, ◌+ℤ◌, ◌-ℤ◌, ◌*ℤ◌, ◌/ℤ◌, ◌%ℤ◌}
use xrp_payguard.Text.{Text, codes}
use xrp_payguard.Failure.{ok, err, external}
use xrp_payguard.Protocol.Types.{ActionRequest, EvaluationResult, allow, reason_ok}
use xrp_payguard.Relay.Types.{MachineDescriptor, EvaluationEnvelope, threshold_ready, Platform}
use xrp_payguard.Relay.Machines.Laws.{id_of, fingerprint_of, signer_of, validate_machines_sound}
use xrp_payguard.Relay.Envelope.Laws.{IsAttested, is_valid_envelope_sound}
use xrp_payguard.Relay.Evaluation.{Settled}
use xrp_payguard.Relay.Evaluation.Laws.{IsKept, envelope_id}
use xrp_payguard.Relay.Evaluation.Outcome.{
  Agrees, AreCoSigned, evaluate_once-outcome, evaluate_once-co_signed,
}
use xrp_payguard.Relay.Evaluation.Submit.{IsSent, submit_once-co_signed}
use xrp_payguard.Relay.Service.{Relay, new_relay}
use xrp_payguard.Relay.Service.Laws.{
  IsReachable, fresh, stepped, evaluates, IsBalanced, reachable-IsBalanced,
}
use xrp_payguard.Relay.Service.Endings.{Reports, evaluated, finish_evaluation-ending_of}
use xrp_payguard.Tests.Toy.{toy, toy_laws, hash32, address40}
use xrp_payguard.Tests.Inputs.{request_at}
use xrp_payguard.Text.{
  lower, to_lower_case, text_eq, same_hex, is_hex_digit, is_hex_run, is_hex_digits, is_hex32,
  is_hex, text_leb, insert_sorted, sort,
}
use xrp_payguard.Text.Decimal.{digits, decimal, value_from, decimal_value, is_digit, is_decimal}
use xrp_payguard.Protocol.Codec.Primitives.{
  bytes32, uint, bounded_uint, map_result, has_duplicate_neighbours, distinct, address,
  lower_address, sorted_addresses, sorted_bytes32,
}
use xrp_payguard.Protocol.Codec.Encoding.{
  encode_policy, policy_commitment, optional_bytes32, hash_values, policy_input_commitment,
  genesis_spend_checkpoint, fdc_snapshot_values, fdc_trigger_snapshot_commitment,
}
use xrp_payguard.Protocol.Codec.Digests.{
  binding_values, encode_policy_binding, policy_binding_digest, receipt_values,
  policy_receipt_digest, encode_fcc_attestation, fcc_attestation_digest,
  policy_receipt_attestation_digest, request_values, encode_action_request, action_request_hash,
  decision_code, evaluation_digest, evaluation_attestation_digest,
}
use xrp_payguard.Relay.Machines.{
  has, is_local_endpoint, is_refused_endpoint, is_malformed_machine, validate_machine,
  validate_from, validate_machines,
}
use xrp_payguard.Relay.Envelope.{
  find_machine, is_malformed_envelope, is_untimely, is_signed_by, check_envelope, is_valid_envelope,
}
use xrp_payguard.Relay.Evaluation.{
  reject, accept, add_to_groups, group_from, find_threshold, conclude_with, collect_one, collect,
  evaluate_once, submit_all, submit_once,
}
use xrp_payguard.Relay.Service.{
  start_evaluation, evaluate, delete, ending_of, record_ending, finish_evaluation, is_not_ready,
  submission_key, submit_threshold, finish_submission,
}
use xrp_payguard.Relay.Key.{public_state, evaluation_key}
use xrp_payguard.Relay.Telemetry.{
  evaluation_started, count_evaluation, evaluation_finished, evaluation_rejected,
  evaluation_was_coalesced, submission_finished, submission_rejected, submission_was_coalesced,
  render_prometheus,
}
use xrp_payguard.Tests.Toy.{is_toy_address, toy_address}

abbrev platform : Platform
platform = record {
  parse_url = λ t. ok (record {
    protocol = codes "https:";
    username = [];
    password = [];
    hostname = codes "machine";
  });
}

abbrev machine : ℕ → ℕ → MachineDescriptor
machine d e = record {
  machine_id = hash32 d;
  key_fingerprint = hash32 e;
  signer = address40 d;
  endpoint = codes "https://machine";
}

abbrev machines : List MachineDescriptor
machines = machine b'1' b'4' ∷ machine b'2' b'5' ∷ machine b'3' b'6' ∷ []

abbrev request : ActionRequest
request = request_at 75 2 4600

abbrev result_of : ℕ → ℕ → EvaluationResult
result_of d e = record {
  request = request;
  decision = allow;
  public_reason_class = reason_ok;
  reserved_amount = pos 75;
  resulting_checkpoint = hash32 b'a';
  result_nonce = hash32 b'7';
  attempt = pos 1;
  issued_at = pos 4650;
  expiry = pos 4700;
  machine_id = hash32 d;
  key_fingerprint = hash32 e;
}

abbrev envelope : ℕ → ℕ → EvaluationEnvelope
envelope d e = record {
  result = result_of d e;
  digest = hash32 b'a';
  signer = address40 d;
  signature = address40 d;
}

abbrev settled : List Settled
settled =
    record { answer = ok (envelope b'1' b'4'); checked_at = pos 4660 }
    ∷ record { answer = err external; checked_at = pos 4660 }
    ∷ record { answer = ok (envelope b'3' b'6'); checked_at = pos 4661 }
    ∷ []

-- What the relay makes of the machines and their envelopes.
runs :
    (validate_machines toy platform machines ≡ ok machines)
    × (is_valid_envelope toy (envelope b'1' b'4') request machines (pos 4660) ≡ true)
    × ((evaluate_once toy request machines settled).status ≡ threshold_ready)
unfolding lower to_lower_case text_eq same_hex is_hex_digit is_hex_run is_hex_digits is_hex32 is_hex
    text_leb insert_sorted sort digits decimal value_from decimal_value is_digit is_decimal bytes32
    uint bounded_uint map_result has_duplicate_neighbours distinct address lower_address
    sorted_addresses sorted_bytes32 encode_policy policy_commitment optional_bytes32 hash_values
    policy_input_commitment genesis_spend_checkpoint fdc_snapshot_values
    fdc_trigger_snapshot_commitment binding_values encode_policy_binding policy_binding_digest
    receipt_values policy_receipt_digest encode_fcc_attestation fcc_attestation_digest
    policy_receipt_attestation_digest request_values encode_action_request action_request_hash
    decision_code evaluation_digest evaluation_attestation_digest has is_local_endpoint
    is_refused_endpoint is_malformed_machine validate_machine validate_from validate_machines
    find_machine is_malformed_envelope is_untimely is_signed_by check_envelope is_valid_envelope
    reject accept add_to_groups group_from find_threshold conclude_with collect_one collect
    evaluate_once submit_all submit_once start_evaluation evaluate delete ending_of record_ending
    finish_evaluation is_not_ready submission_key submit_threshold finish_submission public_state
    evaluation_key evaluation_started count_evaluation evaluation_finished evaluation_rejected
    evaluation_was_coalesced submission_finished submission_rejected submission_was_coalesced
    render_prometheus is_toy_address toy_address ◌+ℤ◌ ◌-ℤ◌ ◌*ℤ◌ ◌/ℤ◌ ◌%ℤ◌
runs = (refl, refl, refl)

validate_machines_sound_example :
    (length machines ≡ 3)
    × Distinct (map id_of machines)
    × Distinct (map fingerprint_of machines)
    × Distinct (map signer_of machines)
validate_machines_sound_example = validate_machines_sound toy platform machines machines runs.0

is_valid_envelope_sound_example : IsAttested toy (envelope b'1' b'4') request machines (pos 4660)
is_valid_envelope_sound_example =
    is_valid_envelope_sound toy (envelope b'1' b'4') request machines (pos 4660) runs.1

evaluate_once-outcome_example :
    (let o = evaluate_once toy request machines settled in
      All (IsKept toy request machines) o.valid
      × Distinct (map envelope_id o.valid)
      × (length o.valid + o.failures ≡ length settled)
      × Agrees o.status o)
evaluate_once-outcome_example = evaluate_once-outcome toy request machines settled

evaluate_once-co_signed_example :
    (digest : Text) × (a : EvaluationEnvelope) × (b : EvaluationEnvelope) × ((evaluate_once toy
        request machines settled).digest
      ≡ some digest)
    × (take 2 (evaluate_once toy request machines settled).matching ≡ a ∷ b ∷ [])
    × AreCoSigned toy digest a b
evaluate_once-co_signed_example =
    evaluate_once-co_signed toy platform toy_laws request machines machines settled runs.0 runs.2

submit_once-co_signed_example :
    (digest : Text) × (a : EvaluationEnvelope) × (b : EvaluationEnvelope) × AreCoSigned toy digest a
      b
    × IsSent
        (λ e. ok tt)
        a
        b
        (submit_once (λ e. ok tt) (evaluate_once toy request machines settled))
submit_once-co_signed_example =
    submit_once-co_signed toy platform toy_laws request machines machines settled (λ e. ok tt)
      runs.0 runs.2

abbrev busy_relay : Relay
busy_relay = (evaluate 2 (ok (codes "key")) new_relay).0

busy_relay-IsReachable : IsReachable 2 busy_relay
busy_relay-IsReachable = stepped fresh (evaluates (ok (codes "key")))

reachable-IsBalanced_example : IsBalanced 2 busy_relay
reachable-IsBalanced_example = reachable-IsBalanced 2 busy_relay busy_relay-IsReachable

in_flight : Member (codes "key") busy_relay.in_flight_evaluations
unfolding evaluate has start_evaluation
in_flight = here

finish_evaluation-ending_of_example :
    (let (s, thrown_error) =
        finish_evaluation
          (codes "key")
          (ending_of (ok (evaluate_once toy request machines settled)))
          busy_relay in
      (thrown_error ≡ none)
      × Reports (ok (evaluate_once toy request machines settled)) busy_relay.telemetry s.telemetry
      × ¬ (Member (codes "key") s.in_flight_evaluations)
      × (suc s.active_evaluations ≡ busy_relay.active_evaluations))
finish_evaluation-ending_of_example =
    finish_evaluation-ending_of toy platform request machines machines
      (ok (evaluate_once toy request machines settled)) 2 busy_relay (codes "key") runs.0
      (evaluated settled refl) busy_relay-IsReachable in_flight
