-- ===== src/Tests/Redemption.antt =====
-- A redemption of two legs, one paid and one defaulted.
use xrp_payguard.Base.{
  inr, here, ◌≡◌, ◌+◌, ◌↔◌, refl, Option, none, some, List, [], ◌∷◌, map, length, Distinct,
}
use xrp_payguard.Base.Int.{ℤ, pos, ◌+ℤ◌}
use xrp_payguard.Text.{Text, codes}
use xrp_payguard.Failure.{Error, err, ok}
use xrp_payguard.Integrations.Redemption.{
  RedemptionMethod, created, requested, settled, underlying_paid, collateral_default,
  RedemptionIntent, LegRequest, RedemptionJob, mixed,
}
use xrp_payguard.Integrations.Redemption.Sending.{RedemptionReceipt, RedemptionClient, open_leg}
use xrp_payguard.Integrations.Redemption.Events.{PerformedEvent, DefaultEvent}
use xrp_payguard.Integrations.Redemption.Legs.{open_legs, proofs}
use xrp_payguard.Integrations.Redemption.Amounts.{
  value_from, id_of, assert_redemption_job_integrity-amounts,
}
use xrp_payguard.Integrations.Redemption.Life.{
  opened, sent, continued, LegSettled, performed, defaulted, none_yet, one_more,
  redemption_job-integrity, settlement_count,
}
use xrp_payguard.Integrations.Redemption.Ledger.{ledger, Marks, LegSettled-Marks}
use xrp_payguard.Integrations.Redemption.Replay.{accept_redemption-replay}
use xrp_payguard.Integrations.Redemption.Outcome.{Says, redemption_outcome-Says}
use xrp_payguard.Tests.Toy.{toy, address40, hash32, is_toy_address, toy_address}
use xrp_payguard.Text.{
  lower, to_lower_case, text_eq, same_hex, is_hex_digit, is_hex_run, is_hex_digits, is_hex32,
  is_hex, text_leb, insert_sorted, sort,
}
use xrp_payguard.Protocol.Codec.Primitives.{
  bytes32, uint, bounded_uint, map_result, has_duplicate_neighbours, distinct, address,
  lower_address, sorted_addresses, sorted_bytes32,
}
use xrp_payguard.Protocol.Codec.Encoding.{
  encode_policy, policy_commitment, optional_bytes32, hash_values, policy_input_commitment,
  genesis_spend_checkpoint, fdc_snapshot_values, fdc_trigger_snapshot_commitment,
}
use xrp_payguard.Protocol.Codec.Digests.{
  binding_values, encode_policy_binding, policy_binding_digest, receipt_values,
  policy_receipt_digest, encode_fcc_attestation, fcc_attestation_digest,
  policy_receipt_attestation_digest, request_values, encode_action_request, action_request_hash,
  decision_code, evaluation_digest, evaluation_attestation_digest,
}
use xrp_payguard.Integrations.Redemption.Checks.{
  is_nonzero_hash, is_uint, checked_add, utf8_length, is_public_payment_address, is_valid_tag,
  is_other_tag, is_bad_request, refuse_zero, require_same, validate_intent, validate_requested_leg,
}
use xrp_payguard.Integrations.Redemption.Hashes.{
  text_digest, build_redemption_intent_hash, redemption_leg_hash, build_redemption_checkpoint_hash,
  checkpoint_redemption_job,
}
use xrp_payguard.Integrations.Redemption.Integrity.{
  is_seen, state_of, same_state, is_uint_there, is_bad_spent, add_there, has_settlement,
  is_bad_payment, is_bad_default, check_settlement, check_amounts, is_misstated, check_totals,
  visit, check_legs, create_redemption_job, assert_redemption_job_integrity,
}
use xrp_payguard.Integrations.Redemption.Step.{
  find_leg, set_leg, is_used_by, is_replayed, paid_leg, defaulted_leg, count_paid, settled_outcome,
  outcome_of, find_open_leg, settle_leg, accept_redemption_performed, accept_redemption_default,
  redemption_outcome,
}
use xrp_payguard.Integrations.Redemption.Events.{
  checked_commitment, answer_of, verify_settlement_event, performed_event_hash, default_event_hash,
  check_performed, check_default,
}
use xrp_payguard.Integrations.Redemption.Sending.{
  visit_all, check_same, request_with, request_redemption,
}

abbrev intent : RedemptionIntent
intent = record {
  job_id = hash32 b'1';
  method = RedemptionMethod.amount;
  asset_manager = address40 b'1';
  f_asset = address40 b'2';
  redeemer = address40 b'3';
  payment_address = codes "rPayment";
  executor = address40 b'4';
  requested_amount = pos 100;
  destination_tag = none;
}

abbrev leg_request : ℤ → Text → ℤ → Text → LegRequest
leg_request id vault value reference = record {
  agent_vault = vault;
  redeemer = address40 b'3';
  request_id = id;
  payment_address = codes "rPayment";
  value = value;
  fee = pos 1;
  first_underlying_block = pos 10;
  last_underlying_block = pos 20;
  last_underlying_timestamp = pos 1000;
  payment_reference = reference;
  executor = address40 b'4';
  executor_fee = pos 0;
  destination_tag = none;
}

abbrev requests : List LegRequest
requests =
    leg_request (pos 7) (address40 b'5') (pos 60) (hash32 b'7')
    ∷ leg_request (pos 8) (address40 b'6') (pos 30) (hash32 b'8')
    ∷ []

abbrev new_job : RedemptionJob
new_job = record {
  intent = intent;
  intent_hash = hash32 b'a';
  checkpoint_hash = hash32 b'a';
  state = created;
  request_transaction_hash = none;
  redeemed_amount = none;
  remaining_amount = none;
  requests = [];
}

abbrev receipt : RedemptionReceipt
receipt = record {
  transaction_hash = hash32 b'9';
  asset_manager = address40 b'1';
  f_asset = address40 b'2';
  redeemer = address40 b'3';
  requested_amount = pos 100;
  redeemed_amount = pos 90;
  remaining_amount = pos 10;
  requests = requests;
}

abbrev client : Option RedemptionClient
client = some (λ job. ok receipt)

abbrev sent_job : RedemptionJob
sent_job = record new_job {
  state = requested;
  request_transaction_hash = some (hash32 b'9');
  redeemed_amount = some (pos 90);
  remaining_amount = some (pos 10);
  requests = map open_leg requests;
}

abbrev payment : PerformedEvent
payment = record {
  flare_transaction_hash = hash32 b'b';
  agent_vault = address40 b'5';
  redeemer = address40 b'3';
  request_id = pos 7;
  transaction_hash = hash32 b'c';
  redemption_amount = pos 60;
  spent_underlying = pos 61;
}

abbrev paid_job : RedemptionJob
paid_job = record sent_job {
  requests =
      record (open_leg (leg_request (pos 7) (address40 b'5') (pos 60) (hash32 b'7'))) {
        state = underlying_paid;
        flare_transaction_hash = some (hash32 b'b');
        underlying_transaction_hash = some (hash32 b'c');
        spent_underlying = some (pos 61);
        settlement_proof = some (hash32 b'd');
      }
      ∷ open_leg (leg_request (pos 8) (address40 b'6') (pos 30) (hash32 b'8'))
      ∷ [];
}

abbrev default_event : DefaultEvent
default_event = record {
  flare_transaction_hash = hash32 b'e';
  agent_vault = address40 b'6';
  redeemer = address40 b'3';
  request_id = pos 8;
  redemption_amount = pos 30;
  vault_collateral = pos 5;
  pool_collateral = pos 0;
}

abbrev ended_job : RedemptionJob
ended_job = record sent_job {
  state = settled;
  requests =
      record (open_leg (leg_request (pos 7) (address40 b'5') (pos 60) (hash32 b'7'))) {
        state = underlying_paid;
        flare_transaction_hash = some (hash32 b'b');
        underlying_transaction_hash = some (hash32 b'c');
        spent_underlying = some (pos 61);
        settlement_proof = some (hash32 b'd');
      }
      ∷ record (open_leg (leg_request (pos 8) (address40 b'6') (pos 30) (hash32 b'8'))) {
        state = collateral_default;
        flare_transaction_hash = some (hash32 b'e');
        vault_collateral = some (pos 5);
        pool_collateral = some (pos 0);
        settlement_proof = some (hash32 b'f');
      }
      ∷ [];
}

-- What each operation gives, from the creation to the outcome.
runs :
    (create_redemption_job toy intent ≡ ok new_job)
    × (request_redemption toy new_job client ≡ ok sent_job)
    × (accept_redemption_performed toy sent_job payment (some (λ e. ok (some (hash32 b'd')))) []
        ≡ ok paid_job)
    × (accept_redemption_default toy paid_job default_event (some (λ e. ok (some (hash32 b'f')))) []
        ≡ ok ended_job)
    × (redemption_outcome toy ended_job ≡ ok mixed)
    × (assert_redemption_job_integrity toy ended_job ≡ ok tt)
unfolding lower to_lower_case text_eq same_hex is_hex_digit is_hex_run is_hex_digits is_hex32 is_hex
    text_leb insert_sorted sort bytes32 uint bounded_uint map_result has_duplicate_neighbours
    distinct address lower_address sorted_addresses sorted_bytes32 encode_policy policy_commitment
    optional_bytes32 hash_values policy_input_commitment genesis_spend_checkpoint
    fdc_snapshot_values fdc_trigger_snapshot_commitment binding_values encode_policy_binding
    policy_binding_digest receipt_values policy_receipt_digest encode_fcc_attestation
    fcc_attestation_digest policy_receipt_attestation_digest request_values encode_action_request
    action_request_hash decision_code evaluation_digest evaluation_attestation_digest
    is_nonzero_hash is_uint checked_add utf8_length is_public_payment_address is_valid_tag
    is_other_tag is_bad_request refuse_zero require_same validate_intent text_digest
    build_redemption_intent_hash redemption_leg_hash build_redemption_checkpoint_hash
    checkpoint_redemption_job validate_requested_leg is_seen state_of same_state is_uint_there
    is_bad_spent add_there has_settlement is_bad_payment is_bad_default check_settlement
    check_amounts is_misstated check_totals visit check_legs create_redemption_job
    assert_redemption_job_integrity find_leg set_leg is_used_by is_replayed paid_leg defaulted_leg
    count_paid settled_outcome outcome_of checked_commitment answer_of verify_settlement_event
    visit_all check_same request_with request_redemption performed_event_hash default_event_hash
    find_open_leg settle_leg check_performed accept_redemption_performed check_default
    accept_redemption_default redemption_outcome is_toy_address toy_address ◌+ℤ◌
runs = (refl, refl, refl, refl, refl, refl)

paid_one : LegSettled toy sent_job paid_job
paid_one = performed payment _ [] runs.2

defaulted_one : LegSettled toy paid_job ended_job
defaulted_one = defaulted default_event _ [] runs.3

redemption_job-integrity_example :
    (assert_redemption_job_integrity toy ended_job ≡ ok tt)
    × (intent ≡ intent)
    × Distinct (proofs ended_job.requests)
redemption_job-integrity_example = redemption_job-integrity toy intent ended_job (
    continued paid_job ended_job
      (continued sent_job paid_job (sent new_job sent_job client (opened new_job runs.0) runs.1)
        paid_one)
      defaulted_one)

settlement_count_example :
    (2 + open_legs ended_job.requests ≡ length sent_job.requests)
    × (length ended_job.requests ≡ length sent_job.requests)
    × ((ended_job.state ≡ settled) ↔ (2 ≡ length sent_job.requests))
settlement_count_example =
    settlement_count toy new_job sent_job ended_job client 2 runs.1
      (one_more 1 paid_job ended_job (one_more 0 sent_job paid_job none_yet paid_one) defaulted_one)

redemption_outcome-Says_example : Says mixed ended_job.requests
redemption_outcome-Says_example = redemption_outcome-Says toy ended_job mixed runs.4

assert_redemption_job_integrity-amounts_example :
    (redeemed : ℤ) × (remaining : ℤ) × (ended_job.redeemed_amount ≡ some redeemed)
    × (ended_job.remaining_amount ≡ some remaining)
    × (redeemed ≡ value_from (pos 0) ended_job.requests)
    × (redeemed +ℤ remaining ≡ intent.requested_amount)
    × Distinct (map id_of ended_job.requests)
assert_redemption_job_integrity-amounts_example =
    assert_redemption_job_integrity-amounts toy ended_job runs.5 (λ e. cc)

LegSettled-Marks_example :
    Marks (pos 7) underlying_paid (ledger sent_job.requests) (ledger paid_job.requests)
LegSettled-Marks_example =
    LegSettled-Marks toy sent_job paid_job
      (performed payment (some (λ e. ok (some (hash32 b'd')))) [] runs.2)

-- Neither event is accepted with the proof that the first leg was settled by.
accept_redemption-replay_example :
    ((x : Error) × (accept_redemption_performed toy paid_job payment
          (some (λ e. ok (some (hash32 b'd'))))
          []
        ≡ err x))
    × ((x : Error) × (accept_redemption_default toy paid_job default_event
            (some (λ e. ok (some (hash32 b'd'))))
            []
          ≡ err x))
accept_redemption-replay_example =
    accept_redemption-replay toy paid_job [] (hash32 b'd') payment (λ e. ok (some (hash32 b'd')))
      default_event (λ e. ok (some (hash32 b'd'))) refl refl (inr here)
